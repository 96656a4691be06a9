-- ===== src/Commands/Envelope/Objects.antt =====
-- The objects that src/protocol/json_parser.cpp captures, with what stands behind them.
use gate_keeper.Base.{
  ℕ, zero, suc, ◌≡◌, refl, sym, ap, ◌∙◌, Bool, true, false, ◌&&◌, not, Option, none, some, [], ◌∷◌,
  ◌++◌, Bytes, ◌==◌, if◌then◌else◌, Bool-cases, inl, inr, arith,
}
use gate_keeper.Commands.Envelope.{object_loop}

object_loop-closed :
    (depth : ℕ) (quoted : Bool) (r : Bytes)
    → object_loop depth quoted [] ≡ some r
    → (depth ≡ 0) × (quoted ≡ false) × (r ≡ [])
unfolding object_loop
object_loop-closed zero true r e = absurd (cc)
object_loop-closed zero false r e = (refl, refl, cc)
object_loop-closed (suc depth) quoted r e = absurd (cc)

object_loop-brace : (s : Bytes) → object_loop 1 false (b'}' ∷ s) ≡ some s
unfolding object_loop
object_loop-brace [] = refl
object_loop-brace (c ∷ s) = refl

last_brace :
    (quoted : Bool) (c : ℕ) (rest r : Bytes) (o : Option Bytes)
    → (if not quoted && c == b'}' then o else none) ≡ some r
    → (quoted ≡ false) × (c ≡ b'}') × (o ≡ some r)
last_brace quoted c rest r o e = elim (Bool-cases (not quoted && c == b'}')) [
  | inl y ↦ (ground (arith, y), ground (arith, y), rw y at e)
  | inr n ↦ let e' = rw n at e in absurd (cc)
]

-- Text behind an object stays behind it.
pub object_loop-append :
    (depth : ℕ) (quoted : Bool) (s rest r : Bytes)
    → object_loop depth quoted s ≡ some r
    → object_loop depth quoted (s ++ rest) ≡ some (r ++ rest)
unfolding object_loop
object_loop-append zero true s rest r e = absurd (cc)
object_loop-append zero false s rest r e =
    let whole : s ≡ r = cc in ap (λ t. some (t ++ rest)) whole
object_loop-append (suc depth) quoted [] rest r e = absurd (cc)
object_loop-append (suc depth) quoted (c ∷ []) rest r e =
    let (plain, brace, closed) = last_brace quoted c rest r _ e in
    let (outer, _, empty) = object_loop-closed depth quoted r closed in
    ap (λ q. object_loop (suc depth) q (c ∷ rest)) plain
    ∙ ap (λ x. object_loop (suc depth) false (x ∷ rest)) brace
    ∙ ap (λ d. object_loop (suc d) false (b'}' ∷ rest)) outer
    ∙ object_loop-brace rest
    ∙ ap (λ t. some (t ++ rest)) (sym empty)
object_loop-append (suc depth) quoted (c ∷ c' ∷ s) rest r e =
    let escaped = object_loop-append (suc depth) quoted s rest r in
    let switched = object_loop-append (suc depth) (not quoted) (c' ∷ s) rest r in
    let opened = object_loop-append (suc (suc depth)) quoted (c' ∷ s) rest r in
    let closed = object_loop-append depth quoted (c' ∷ s) rest r in
    let plain = object_loop-append (suc depth) quoted (c' ∷ s) rest r in
    elim (Bool-cases (quoted && c == b'\\')) [
      | inl y ↦ rw y (escaped (rw y at e))
      | inr n ↦ elim (Bool-cases (c == b'"')) [
        | inl y ↦ rw (n, y) (switched (rw (n, y) at e))
        | inr n1 ↦ elim (Bool-cases (not quoted && c == b'{')) [
          | inl y ↦ rw (n, n1, y) (opened (rw (n, n1, y) at e))
          | inr n2 ↦ elim (Bool-cases (not quoted && c == b'}')) [
            | inl y ↦ rw (n, n1, n2, y) (closed (rw (n, n1, n2, y) at e))
            | inr n3 ↦ rw (n, n1, n2, n3) (plain (rw (n, n1, n2, n3) at e))
          ]
        ]
      ]
    ]
