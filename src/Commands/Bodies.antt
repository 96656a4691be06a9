-- ===== src/Commands/Bodies.antt =====
-- Bodies of one and of two members, as the handlers of src/domain/ read them.
use gate_keeper.Base.{
  ℕ, suc, ◌-◌, ◌≡◌, refl, ◌∙◌, ap, [], ◌∷◌, ◌++◌, Bytes, text, length, false, arith,
}
use gate_keeper.Commands.{members_loop, members, optional_members}
use gate_keeper.Json.{Reader, done, string, expect, take_char, skip, string_loop, end}

-- the text in front of the value of the first member
abbrev pub opening : Bytes → Bytes
opening s = text "{\"key\":" ++ s

name_of_key : (s : Bytes) → string (text "\"key\":" ++ s) ≡ done (text "key") (b':' ∷ s)
unfolding string string_loop expect take_char skip text
name_of_key s = refl

opened : (s : Bytes) → expect b'{' (opening s) ≡ done tt (text "\"key\":" ++ s)
unfolding expect take_char skip text
opened s = refl

longer : (v : Bytes) → length (text "\"key\":" ++ v) ≡ suc (length (text "\"key\":" ++ v) - 1)
unfolding text
longer v = omega arith

longer_two :
    (v : Bytes) → length (text "\"key\":" ++ v) ≡ suc (suc (length (text "\"key\":" ++ v) - 2))
unfolding text
longer_two v = omega arith

module _ {S : Type 0} (member : Bytes → S → Reader S) where
  members_loop-next :
      (fuel : ℕ) (st st' : S) (s field v rest : Bytes)
      → string s ≡ done field (b':' ∷ v)
      → member field st v ≡ done st' (b',' ∷ rest)
      → members_loop (suc fuel) member st s ≡ members_loop fuel member st' rest
  unfolding members_loop expect take_char skip
  members_loop-next fuel st st' s field v rest named valued = rw named (rw valued refl)

  members_loop-last :
      (fuel : ℕ) (st st' : S) (s field v rest : Bytes)
      → string s ≡ done field (b':' ∷ v)
      → member field st v ≡ done st' (b'}' ∷ rest)
      → members_loop (suc fuel) member st s ≡ done st' rest
  unfolding members_loop expect take_char skip
  members_loop-last fuel st st' s field v rest named valued = rw named (rw valued refl)

  pub members_one :
      (st st' : S) (v : Bytes)
      → member (text "key") st v ≡ done st' (b'}' ∷ [])
      → members member st (opening v) ≡ done st' []
  unfolding members
  members_one st st' v valued =
      let s = text "\"key\":" ++ v in
      let read = members_loop-last (length s) st st' s (text "key") v [] (name_of_key v) valued in
      rw (opened v, read) (unfold end skip in refl)

  pub members_two :
      (st st1 st2 : S) (v after name w : Bytes)
      → member (text "key") st v ≡ done st1 (b',' ∷ after)
      → string after ≡ done name (b':' ∷ w)
      → member name st1 w ≡ done st2 (b'}' ∷ [])
      → members member st (opening v) ≡ done st2 []
  unfolding members
  members_two st st1 st2 v after name w first named second =
      let s = text "\"key\":" ++ v in
      let size : length s ≡ suc (length s - 1) = longer v in
      let last = members_loop-last (length s - 1) st1 st2 after name w [] named second in
      let read =
        members_loop-next (length s) st st1 s (text "key") v after (name_of_key v) first
        ∙ ap (λ n. members_loop n member st1 after) size
        ∙ last in
      rw (opened v, read) (unfold end skip in refl)

  pub members_three :
      (st st1 st2 st3 : S) (v after name w after' name' w' : Bytes)
      → member (text "key") st v ≡ done st1 (b',' ∷ after)
      → string after ≡ done name (b':' ∷ w)
      → member name st1 w ≡ done st2 (b',' ∷ after')
      → string after' ≡ done name' (b':' ∷ w')
      → member name' st2 w' ≡ done st3 (b'}' ∷ [])
      → members member st (opening v) ≡ done st3 []
  unfolding members
  members_three st st1 st2 st3 v after name w after' name' w' first named second named' third =
      let s = text "\"key\":" ++ v in
      let size : length s ≡ suc (suc (length s - 2)) = longer_two v in
      let read =
        members_loop-next (length s) st st1 s (text "key") v after (name_of_key v) first
        ∙ ap (λ n. members_loop n member st1 after) size
        ∙ members_loop-next (suc (length s - 2)) st1 st2 after name w after' named second
        ∙ members_loop-last (length s - 2) st2 st3 after' name' w' [] named' third in
      rw (opened v, read) (unfold end skip in refl)

  pub optional_members_one :
      (st st' : S) (v : Bytes)
      → member (text "key") st v ≡ done st' (b'}' ∷ [])
      → optional_members member st (opening v) ≡ done st' []
  unfolding optional_members
  optional_members_one st st' v valued =
      let s = text "\"key\":" ++ v in
      let more : take_char b'}' s ≡ done false s = unfold take_char skip text in refl in
      let read = members_loop-last (length s) st st' s (text "key") v [] (name_of_key v) valued in
      rw (opened v, more, read) (unfold end skip in refl)
