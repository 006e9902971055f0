-- ===== src/Tests/Codec.antt =====
-- A text for each value, with a reader that gives the value back. It stands for `JSON` in tests.
-- Each code unit is an instruction for a stack of parts: an operation below 16, and its operand.
use namecoin.Prelude.{
  ℕ, zero, suc, ◌+◌, ◌*◌, ◌/◌, ◌%◌, ◌<◌, ◌≡◌, refl, ◌∙◌, ap, pos, negsuc, Bool, true, false, List,
  [], ◌∷◌, arith, ◌==◌, if◌then◌else◌,
}
use namecoin.Js.Text.{Text, js, text_eq}
use namecoin.Js.Value.{
  Value, Number, Items, Fields, undefined, null, bool, num, str, arr, obj, int, frac, nan, infinity,
  minus_infinity, nil, cons, end, field,
}
use namecoin.Js.Effect.{Result, ok, throw, type_error}

pub data Part : Type 0 where
  value : Value → Part
  items : Items → Part
  fields : Fields → Part
  text : Text → Part

abbrev number_of : ℕ → Number
number_of zero = nan
number_of (suc zero) = infinity
number_of _ = minus_infinity

abbrev make_bool : ℕ → Bool
make_bool zero = false
make_bool (suc n) = true

abbrev push_char : ℕ → List Part → List Part
push_char c (text s ∷ st) = text (c ∷ s) ∷ st
push_char c st = []

abbrev make_str : List Part → List Part
make_str (text s ∷ st) = value (str s) ∷ st
make_str st = []

abbrev make_frac : ℕ → List Part → List Part
make_frac m (value (num (int z)) ∷ st) = value (num (frac z m)) ∷ st
make_frac m st = []

abbrev make_cons : List Part → List Part
make_cons (value x ∷ items xs ∷ st) = items (cons x xs) ∷ st
make_cons st = []

abbrev make_arr : List Part → List Part
make_arr (items xs ∷ st) = value (arr xs) ∷ st
make_arr st = []

abbrev make_field : List Part → List Part
make_field (text k ∷ value v ∷ fields fs ∷ st) = fields (field k v fs) ∷ st
make_field st = []

abbrev make_obj : List Part → List Part
make_obj (fields fs ∷ st) = value (obj fs) ∷ st
make_obj st = []

step : ℕ → ℕ → List Part → List Part
step op n st =
    if op == 0
    then value undefined ∷ st
    else if op == 1
    then value null ∷ st
    else if op == 2
    then value (bool (make_bool n)) ∷ st
    else if op == 3
    then value (num (number_of n)) ∷ st
    else if op == 4
    then text [] ∷ st
    else if op == 5
    then push_char n st
    else if op == 6
    then make_str st
    else if op == 7
    then value (num (int (pos n))) ∷ st
    else if op == 8
    then value (num (int (negsuc n))) ∷ st
    else if op == 9
    then make_frac n st
    else if op == 10
    then items nil ∷ st
    else if op == 11
    then make_cons st
    else if op == 12
    then make_arr st
    else if op == 13
    then fields end ∷ st
    else if op == 14
    then make_field st
    else make_obj st

run : Text → List Part → List Part
run [] st = st
run (c ∷ s) st = run s (step (c % 16) (c / 16) st)

token : ℕ → ℕ → Text → Text
token op n r = (op + n * 16) ∷ r

run-token :
    (op n : ℕ) (r : Text) (st : List Part) → op < 16 → run (token op n r) st ≡ run r (step op n st)
unfolding run token
run-token op n r st h =
    let e : (op + n * 16) % 16 ≡ op = omega arith in
    let d : (op + n * 16) / 16 ≡ n = omega arith in
    ap (λ (o : ℕ). run r (step o ((op + n * 16) / 16) st)) e
    ∙ ap (λ (m : ℕ). run r (step op m st)) d

-- The instructions of a value, in front of others.
write_text : Text → Text → Text
write_text [] r = token 4 0 r
write_text (c ∷ s) r = write_text s (token 5 c r)

write_number : Number → Text → Text
write_number (int (pos n)) r = token 7 n r
write_number (int (negsuc n)) r = token 8 n r
write_number (frac (pos n) m) r = token 7 n (token 9 m r)
write_number (frac (negsuc n) m) r = token 8 n (token 9 m r)
write_number nan r = token 3 0 r
write_number infinity r = token 3 1 r
write_number minus_infinity r = token 3 2 r

abbrev bit : Bool → ℕ
bit true = 1
bit false = 0

mutual
  write : Value → Text → Text
  write undefined r = token 0 0 r
  write null r = token 1 0 r
  write (bool b) r = token 2 (bit b) r
  write (num n) r = write_number n r
  write (str s) r = write_text s (token 6 0 r)
  write (arr xs) r = write_items xs (token 12 0 r)
  write (obj fs) r = write_fields fs (token 15 0 r)

  write_items : Items → Text → Text
  write_items nil r = token 10 0 r
  write_items (cons x xs) r = write_items xs (write x (token 11 0 r))

  write_fields : Fields → Text → Text
  write_fields end r = token 13 0 r
  write_fields (field k v fs) r = write_fields fs (write v (write_text k (token 14 0 r)))

run-write_text : (s r : Text) (st : List Part) → run (write_text s r) st ≡ run r (text s ∷ st)
unfolding write_text
run-write_text [] r st = run-token 4 0 r st (omega arith) ∙ (unfold step in refl)
run-write_text (c ∷ s) r st =
    run-write_text s (token 5 c r) st
    ∙ (run-token 5 c r (text s ∷ st) (omega arith) ∙ (unfold step in refl))

module _ (r : Text) (st : List Part) where
  run-write_number : (n : Number) → run (write_number n r) st ≡ run r (value (num n) ∷ st)
  unfolding write_number step
  run-write_number (int (pos n)) = run-token 7 n r st (omega arith)
  run-write_number (int (negsuc n)) = run-token 8 n r st (omega arith)
  run-write_number (frac (pos n) m) =
      run-token 7 n (token 9 m r) st (omega arith)
      ∙ run-token 9 m r (value (num (int (pos n))) ∷ st) (omega arith)
  run-write_number (frac (negsuc n) m) =
      run-token 8 n (token 9 m r) st (omega arith)
      ∙ run-token 9 m r (value (num (int (negsuc n))) ∷ st) (omega arith)
  run-write_number nan = run-token 3 0 r st (omega arith)
  run-write_number infinity = run-token 3 1 r st (omega arith)
  run-write_number minus_infinity = run-token 3 2 r st (omega arith)

  run-bool : (b : Bool) → run (token 2 (bit b) r) st ≡ run r (value (bool b) ∷ st)
  unfolding step
  run-bool true = run-token 2 1 r st (omega arith)
  run-bool false = run-token 2 0 r st (omega arith)

mutual
  unfolding write write_items write_fields step

  run-write : (v : Value) (r : Text) (st : List Part) → run (write v r) st ≡ run r (value v ∷ st)
  run-write undefined r st = run-token 0 0 r st (omega arith)
  run-write null r st = run-token 1 0 r st (omega arith)
  run-write (bool b) r st = run-bool r st b
  run-write (num n) r st = run-write_number r st n
  run-write (str s) r st =
      run-write_text s (token 6 0 r) st ∙ run-token 6 0 r (text s ∷ st) (omega arith)
  run-write (arr xs) r st =
      run-write_items xs (token 12 0 r) st ∙ run-token 12 0 r (items xs ∷ st) (omega arith)
  run-write (obj fs) r st =
      run-write_fields fs (token 15 0 r) st ∙ run-token 15 0 r (fields fs ∷ st) (omega arith)

  run-write_items :
      (xs : Items) (r : Text) (st : List Part) → run (write_items xs r) st ≡ run r (items xs ∷ st)
  run-write_items nil r st = run-token 10 0 r st (omega arith)
  run-write_items (cons x xs) r st =
      run-write_items xs (write x (token 11 0 r)) st
      ∙ (run-write x (token 11 0 r) (items xs ∷ st)
          ∙ run-token 11 0 r (value x ∷ items xs ∷ st) (omega arith))

  run-write_fields :
      (fs : Fields) (r : Text) (st : List Part)
      → run (write_fields fs r) st ≡ run r (fields fs ∷ st)
  run-write_fields end r st = run-token 13 0 r st (omega arith)
  run-write_fields (field k v fs) r st =
      run-write_fields fs (write v (write_text k (token 14 0 r))) st
      ∙ (run-write v (write_text k (token 14 0 r)) (fields fs ∷ st)
          ∙ (run-write_text k (token 14 0 r) (value v ∷ fields fs ∷ st)
              ∙ run-token 14 0 r (text k ∷ value v ∷ fields fs ∷ st) (omega arith)))

abbrev finish : List Part → Result Value
finish (value v ∷ []) = ok v
finish _ = throw (type_error (js "not JSON"))

-- The marker 0 stands in front, so that no value is written as `[]`.
unfoldable pub to_json : Value → Text
unfolding write write_text write_number token
to_json v = 0 ∷ write v []

unfoldable pub of_json : Text → Result Value
unfolding run step
of_json [] = throw (type_error (js "not JSON"))
of_json (c ∷ s) =
    if c == 0
    then finish (run s [])
    else if text_eq (c ∷ s) (js "[]")
    then ok (arr nil)
    else throw (type_error (js "not JSON"))

pub of_json-to_json : (v : Value) → of_json (to_json v) ≡ ok v
unfolding of_json to_json
of_json-to_json v = rw (run-write v [] [])
