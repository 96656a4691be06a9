-- ===== src/Commands/Dispatcher/Names.antt =====
-- How `Dispatch` (src/command/dispatcher.cpp) treats the case of a command's name.
use gate_keeper.Base.{
  ℕ, ◌≡◌, refl, ap, sym, ◌∙◌, Bool, true, false, some, List, [], ◌∷◌, Bytes, same, same_iff, text,
  if◌then◌else◌, arith, Bool-cases, inl, inr,
}
use gate_keeper.Commands.{Request, CommandResult, Handler}
use gate_keeper.Commands.Dispatcher.{
  upper, normalize_name, any_same, write_ops, is_write_op, Registry, logged, dispatch, dispatch_to,
}
use gate_keeper.Maps.{lookup}
use gate_keeper.Storage.Store.{MemoryStore}
use gate_keeper.Tables.{TableOps}

normalize_name_twice : (s : Bytes) → normalize_name (normalize_name s) ≡ normalize_name s
unfolding normalize_name
normalize_name_twice [] = refl
normalize_name_twice (c ∷ s) =
    let again : upper (upper c) ≡ upper c = ground arith in
    ground (arith, again, normalize_name_twice s)

abbrev IsUpper : List Bytes → Type 0
IsUpper [] = Unit
IsUpper (name ∷ names) = (normalize_name name ≡ name) × IsUpper names

normalize_name-write_op :
    (op : Bytes) (names : List Bytes)
    → IsUpper names
    → any_same op names ≡ true
    → normalize_name op ≡ op
unfolding any_same
normalize_name-write_op op [] h e = absurd (cc)
normalize_name-write_op op (name ∷ names) h e = elim (Bool-cases (same op name)) [
  | inl y ↦ let eq = (same_iff op name).0 y in ap normalize_name eq ∙ h.0 ∙ sym eq
  | inr n ↦ normalize_name-write_op op names h.1 (sym (rw n refl) ∙ e)
]

write_ops-IsUpper : IsUpper write_ops
unfolding normalize_name text
write_ops-IsUpper = (
  refl,
  (
    refl,
    (refl, (refl, (refl, (refl, (refl, (refl, (refl, (refl, (refl, (refl, (refl, tt))))))))))),
  ),
)

module _ ⦃T : TableOps⦄ where
  logged_none :
      (writer : Bool) (request : Request) (res : CommandResult)
      → is_write_op request.op ≡ false
      → logged writer request res ≡ []
  unfolding logged
  logged_none writer request res h = ground (arith, h)

  logged_named :
      (writer : Bool) (request : Request) (res : CommandResult)
      → logged writer request res ≡ (
          if is_write_op request.op
          then logged writer (record request { op = normalize_name request.op }) res
          else [])
  unfolding is_write_op
  logged_named writer request res = elim (Bool-cases (is_write_op request.op)) [
    | inl y ↦ rw y (
        ap (λ op. logged writer (record request { op = op }) res)
          (sym (normalize_name-write_op request.op write_ops write_ops-IsUpper y)))
    | inr n ↦ rw n (logged_none writer request res n)
  ]

module _ ⦃T : TableOps⦄ (commands : Registry) where
  -- A request and the same request with its command's name in upper case, which is registered, get the
  -- same reply and leave the same store; but the first one leaves the record of the second one only if
  -- `IsWriteOp` knows the name as it is written, and else none.
  pub dispatch-normalize_name :
      (writer : Bool) (request : Request) (handler : Handler) (now : ℕ) (m : MemoryStore)
      → lookup same (normalize_name request.op) commands ≡ some handler
      → let named = record request { op = normalize_name request.op } in
        ((dispatch commands writer request now m).0 ≡ (dispatch commands writer named now m).0)
        × ((dispatch commands writer request now m).2 ≡ (dispatch commands writer named now m).2)
        × ((dispatch commands writer request now m).1
            ≡ (if is_write_op request.op then (dispatch commands writer named now m).1 else []))
  unfolding dispatch
  dispatch-normalize_name writer request handler now m registered =
      let named = record request { op = normalize_name request.op } in
      let again : lookup same (normalize_name (normalize_name request.op)) commands ≡ some handler =
        ap (λ n. lookup same n commands) (normalize_name_twice request.op) ∙ registered in
      let plain = ap (λ h. dispatch_to writer request h now m) registered in
      let upper_case = ap (λ h. dispatch_to writer named h now m) again in
      (
        ap (λ p. p.0) plain ∙ sym (ap (λ p. p.0) upper_case),
        ap (λ p. p.2) plain ∙ sym (ap (λ p. p.2) upper_case),
        ap (λ p. p.1) plain
            ∙ logged_named writer request (handler request.body_json now m).0
            ∙ ap (λ l. if is_write_op request.op then l else []) (sym (ap (λ p. p.1) upper_case)),
      )
