-- ===== src/Views/Life.antt =====
-- The life of a wallet's names, as the page promises it: what a list of names may become.
pub mod Order
use namecoin.Prelude.{◌≡◌, refl, Bool, true, false, List, [], ◌∷◌, ◌++◌, map, if◌then◌else◌}
use namecoin.Js.Text.{Text, text_eq}

-- A name is committed to, and then revealed with an address.
pub data Life : Type 0 where
  pending : Life
  revealed : Text → Life

pub record Name : Type 0 where
  pub domain : Text
  pub salt : Text
  pub txid : Text
  pub life : Life

-- The names of a domain get an address, and are revealed.
unfoldable pub reveal_in : Text → Text → Name → Name
unfolding text_eq
reveal_in domain ip n = if text_eq n.domain domain then record n { life = revealed ip } else n

-- Only a revealed name shows its address.
abbrev pub renew_life : Text → Life → Life
renew_life ip pending = pending
renew_life ip (revealed old) = revealed ip

unfoldable pub renew_in : Text → Text → Name → Name
unfolding text_eq
renew_in domain ip n =
    if text_eq n.domain domain then record n { life = renew_life ip n.life } else n

unfoldable pub drop_from : Text → List Name → List Name
unfolding text_eq
drop_from domain [] = []
drop_from domain (n ∷ ns) =
    let rest = drop_from domain ns in if text_eq n.domain domain then rest else n ∷ rest

-- What is done to the names of a wallet: the domain, and the address where one is given.
pub data Action : Type 0 where
  committing : Text → Action
  revealing renewing : Text → Text → Action
  dropping : Text → Action
  clearing : Action

-- What one action does to the names of a wallet.
pub data NameStep (ns : List Name) : Action → List Name → Type 0 where
  commit :
      (domain salt txid : Text)
      → NameStep ns
          (committing domain)
          (ns ++ record { domain = domain; salt = salt; txid = txid; life = pending } ∷ [])
  reveal : (domain ip : Text) → NameStep ns (revealing domain ip) (map (reveal_in domain ip) ns)
  renew : (domain ip : Text) → NameStep ns (renewing domain ip) (map (renew_in domain ip) ns)
  drop : (domain : Text) → NameStep ns (dropping domain) (drop_from domain ns)
  clear : NameStep ns clearing []

-- The names that come from others by permitted actions.
pub data Reach (permits : Action → Type 0) (ns : List Name) : List Name → Type 0 where
  here : Reach permits ns ns
  next :
      {a : Action} {ms ks : List Name}
      → Reach permits ns ms
      → permits a
      → NameStep ms a ks
      → Reach permits ns ks
