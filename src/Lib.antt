-- ===== src/Lib.antt =====
-- The web clients of Namecoin-on-Peerster: the wallet (frontend/src) and the page of a peer
-- (gui/web/assets/scripts/main.js).
--
-- The wallet makes a key pair, commits to a domain name by a salted hash, and sends signed
-- transactions to a node over HTTP. Its parts, from the bottom:
-- - Js: what the program uses of JavaScript. A string is the list of its UTF-16 code units (Js.Text).
--   A value is what JSON can hold, or undefined (Js.Value). `Run S A` is code that changes the state
--   `S` and returns or throws (Js.Effect); an `async` function runs to its end, each `await` in turn.
--   `Platform` (Js.Platform) is all that the program calls and does not implement: JSON, SHA-256,
--   tweetnacl, canonicalize, the clock, the random generator, the quota of localStorage and the node.
--   It is a parameter of every definition that uses it; what it answers may depend on the number of
--   questions asked before. `IsStandard`, `IsJson` and `IsNacl` are the documented promises that
--   theorems name as hypotheses. `Browser` is the shared state: the storage and the requests sent.
-- - Utils.Hex, Utils.Hash: frontend/src/utils/hash.js. Utils.Regex, Utils.Validation: validation.js.
--   Utils.LocalStorage: storage.js. Utils.DomainStorage: domainStorage.js.
-- - Services.Transaction, Crypto, Api, Wallet: the files of frontend/src/services.
-- - Composables.UseTransaction, UseWallet: the files of frontend/src/composables. `TxState` and
--   `WalletState` are the refs at the top of the modules, with the browser beside them.
--   UseTransaction.Calls cuts `createTransaction` and `signAndSend` at their awaits: `advance` is the code
--   of a call up to its next await, and `run_turns` lets any calls take turns on one `TxState`.
-- - Views.WalletPage: frontend/src/views/Wallet.vue, the handlers of the page over the services and the
--   wallet; `WalletPage` is its refs. Its children have the lists of names (Names), the making of a
--   transaction (Sending), the commitment (Commit), the revelation and the update of a name (Reveal),
--   and the start of the page (Start). A row that a handler holds is an object with a key: a write to a
--   row that the page has replaced shows nowhere, but the handler that holds the row reads it again
--   (`old_rows`, `entry_now`). `fetchDomains`, which some handlers do not wait for,
--   runs where it is called; it writes only to the list of the registry and to the status.
-- - Views.Events: what happens on that page, as a list of events, with the handler that each one runs.
--   Views.Kept is what an invariant of the storage and the requests has to allow for; the handlers keep
--   every invariant that allows for it. Views.Events.Requests is the one of the requests.
-- - Js.Effect.Async: an `async` function in turns. `Outcome` is how far a call has come, `await` gives way to
--   the others, and `moves` starts handlers and lets the calls that wait go on, in any order; a request is
--   sent and answered when `fetch` is called, and its answer is seen in a later turn. Views.Turns has the
--   handlers of Wallet.vue and the functions of useWallet.js that they call in this form: Names has those
--   that send a transaction, Start the others. `fetchDomains`, where a handler does not wait for it, is a
--   call of its own, which may start at any time. The address of a row is read when its handler starts, for
--   the request, and again when the answer of the node has come, for the storage (`reveal_answered`,
--   `update_answered`): the row may have been typed into, or cleared by another handler, in between.
--   Js.Effect.Async.Endures has the rules for what all turns keep.
-- - Views.Life is what the page promises of a wallet's names, with steps between lists of names;
--   Views.Names relates the storage to it, as an invariant that Views.Events takes through all events,
--   and the rows of the page (Names.Shown, Names.Saved).
--   Views.Rows is about the rows that a handler marks, Views.Commit and Views.Sync about its ends.
-- - Markup: what a Vue template renders, as a tree of elements, and what the user may do at it, `offers`: a
--   disabled button or input does nothing, and a form is submitted by a submit button that is not
--   disabled, where the browser accepts the inputs of the form. Views.WalletPage.Template, Views.Home.Template and the module Template of each component are
--   the templates, without white space between tags; `Vue` is what Vue does with a value in
--   the markup, and what the browser's validation says of an input (`meets`).
--   Views.Offered says what the user may do on the wallet page, apart from the template.
-- - Views.Home: frontend/src/views/Home.vue. Components: the files of frontend/src/components, with the
--   events that they emit and their alerts as lists.
-- - Router: frontend/src/router/index.js.
-- - Gui: gui/web/assets/scripts/main.js, the page of a peer. Gui.Page has the state of the page, its
--   messages, `checkInputs` and `BaseElement.fetch`; Gui.Info has `PeerInfo` and the collapsible parts;
--   Gui.Messaging has `Messaging`, `Unicast`, `Broadcast` and `Packets`; Gui.Routing has `Routing`;
--   Gui.Sharing has `Catalog`, `DataSharing`, `Search` and `Naming`. `Host` adds to the platform what
--   only this page calls. An element of the page is the list of the markup of its children.
-- - Tests: a platform that runs (Tests.Node, with a JSON codec in Tests.Codec) and the theorems at
--   concrete inputs.
-- A function keeps its name in snake case; `from` of a transaction is `sender`, and `error` of the
-- transaction state is `error_text`. Console output is not modelled.
--
-- No definition takes fuel but `show_nat`, which has a digit more than it can need: its fuel is the
-- number plus one. Loops recur on their lists, or on the rounds left (`fill_bytes`).
--
-- Not modelled: styles, App.vue, mounting and build files, the vendored
-- Stimulus and Viz.js scripts, scrolling, timers and upload progress of the page, the
-- interleavings of handlers other than those of Wallet.vue and the calls of useTransaction.js, and the Go
-- programs, of which the wallet sees only the answers to its requests. A number is a whole number, a
-- fraction by its floor and its other bits, or not finite; arithmetic on numbers does not occur. The
-- properties of an object keep the order of their insertion, also those whose names are numerals.
pub mod Components
pub mod Composables
pub mod Gui
pub mod Js
pub mod Markup
pub mod Prelude
pub mod Router
pub mod Services
pub mod Tests
pub mod Utils
pub mod Views
