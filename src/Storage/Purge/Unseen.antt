-- ===== src/Storage/Purge/Unseen.antt =====
-- `PurgeExpired` of src/storage/memory_store.cpp removes only what no client sees.
use gate_keeper.Base.{
  ℕ, ◌≤◌, ◌<◌, ◌≡◌, refl, sym, ◌∙◌, Bool, Bool-cases, Option-cases, inl, inr, true, false, ◌&&◌,
  none, some, List, [], ◌∷◌, ◌++◌, Bytes, same, same_iff, same_refl, arith, ltb, length,
}
use gate_keeper.Tables.{TableOps, first, times}
use gate_keeper.Storage.Entry.{Entry, Reservation, is_expired}
use gate_keeper.Storage.Purge.{sample, erase_keys, release_reservation, release_all, purge_expired}
use gate_keeper.Storage.Quota.{has_expired}
use gate_keeper.Storage.Shard.{StorageShard}
use gate_keeper.Storage.Shard.Live.{live, unexpired}

-- Every key of the list has the property.
abbrev AllKeys : (Bytes → Type 0) → List Bytes → Type 0
AllKeys P [] = Unit
AllKeys P (k ∷ ks) = P k × AllKeys P ks

AllKeys-append :
    (P : Bytes → Type 0) (ks : List Bytes) (k : Bytes)
    → AllKeys P ks
    → P k
    → AllKeys P (ks ++ k ∷ [])
AllKeys-append P [] k all p = (p, tt)
AllKeys-append P (j ∷ ks) k all p = (all.0, AllKeys-append P ks k all.1 p)

module _ {V : Type 0} where
  times_of_first : (q : Bytes) (v : V) (l : List (Bytes × V)) → first q l ≡ some v → 0 < times q l
  unfolding first times
  times_of_first q v [] e = absurd (ground (arith, e))
  times_of_first q v ((k, w) ∷ l) e = elim (Bool-cases (same k q)) [
    | inl y ↦ rw y (omega arith)
    | inr n ↦ rw n (let ih = times_of_first q v l (ground (arith, e, n)) in omega (arith, ih))
  ]

  -- What is sampled from entries with distinct keys passes the test.
  sample-AllKeys :
      (P : Bytes → Type 0) (test : V → Bool) (limit : ℕ) (l : List (Bytes × V)) (found : List Bytes)
      → ((q : Bytes) → times q l ≤ 1)
      → ((q : Bytes) (v : V) → first q l ≡ some v → test v ≡ true → P q)
      → AllKeys P found
      → AllKeys P (sample test limit l found)
  unfolding sample first times
  sample-AllKeys P test limit [] found once passes all = all
  sample-AllKeys P test limit ((k, v) ∷ l) found once passes all =
      let once' : (q : Bytes) → times q l ≤ 1 = λ q. omega (arith, once q) in
      let passes' : (q : Bytes) (w : V) → first q l ≡ some w → test w ≡ true → P q = λ q w e t.
        let there = times_of_first q w l e in
        let other : same k q ≡ false = elim (Bool-cases (same k q)) [
          | inl y ↦ absurd (ground (arith, once q, there, y))
          | inr n ↦ n
        ] in
        passes q w (rw other e) t in
      elim (Bool-cases (ltb (length found) limit && test v)) [
        | inl y ↦ rw y (
            sample-AllKeys P test limit l (found ++ k ∷ []) once' passes' (
              AllKeys-append P found k all
                (passes k v (rw (same_refl k) refl) (ground (arith, y)))))
        | inr n ↦ rw n (sample-AllKeys P test limit l found once' passes' all)
      ]

module _ ⦃T : TableOps⦄ where
  sampled :
      {V : Type 0} (P : Bytes → Type 0) (test : V → Bool) (limit : ℕ) (t : T.Table V)
      → ((q : Bytes) (v : V) → T.find q t ≡ some v → test v ≡ true → P q)
      → AllKeys P (sample test limit (T.entries t) [])
  sampled P test limit t passes =
      sample-AllKeys P test limit (T.entries t) [] (λ q. T.times-entries q t)
        (λ q v e. passes q v (sym (T.first-entries q t) ∙ e)) tt

  abbrev IsGone : ℕ → T.Table Entry → Bytes → Type 0
  IsGone now t k = unexpired now (T.find k t) ≡ none

  erase_keys-IsGone :
      (ks : List Bytes) (q : Bytes) (now later : ℕ) (t : T.Table Entry)
      → now ≤ later
      → AllKeys (IsGone now t) ks
      → unexpired later (T.find q (erase_keys ks t)) ≡ unexpired later (T.find q t)
  unfolding erase_keys
  erase_keys-IsGone [] q now later t h all = refl
  erase_keys-IsGone (k ∷ ks) q now later t h all =
      let t' = (T.erase k t).0 in erase_keys-IsGone ks q now later t' h (still ks all.1) ∙ one
    where
      still :
          (js : List Bytes) → AllKeys (IsGone now t) js → AllKeys (IsGone now (T.erase k t).0) js
      still [] a = tt
      still (j ∷ js) a = (ground (arith, T.find-erase k j t, a.0), still js a.1)

      one : unexpired later (T.find q (T.erase k t).0) ≡ unexpired later (T.find q t)
      one = ground (arith, T.find-erase k q t, same_iff k q, all.0)

  -- No reservation of the key has expired.
  abbrev pub NoRefund : Bytes → ℕ → StorageShard → Type 0
  NoRefund q now s =
      (id : Bytes) (res : Reservation)
      → T.find id s.reservations ≡ some res
      → has_expired res now ≡ true
      → same res.key q ≡ false

  abbrev IsDue : ℕ → T.Table Reservation → Bytes → Type 0
  IsDue now t id = (res : Reservation) → T.find id t ≡ some res → has_expired res now ≡ true

  -- Releasing one reservation: what stays due and free of refunds, and what is shown.
  record Released (q id : Bytes) (now later : ℕ) (s s' : StorageShard) : Type 0 where
    reservations :
        (j : Bytes) (res : Reservation)
        → T.find j s'.reservations ≡ some res
        → T.find j s.reservations ≡ some res
    shown : live q later s' ≡ live q later s

  find_erased :
      {V : Type 0} (id j : Bytes) (v : V) (t : T.Table V)
      → T.find j (T.erase id t).0 ≡ some v
      → T.find j t ≡ some v
  find_erased id j v t e = elim (Bool-cases (same id j)) [
    | inl y ↦ absurd (ground (arith, e, T.find-erase id j t, y))
    | inr n ↦ sym (T.find-erase id j t ∙ rw n refl) ∙ e
  ]

  release_reservation-Released :
      (q id : Bytes) (now later : ℕ) (s : StorageShard)
      → NoRefund q now s
      → IsDue now s.reservations id
      → Released q id now later s (release_reservation now id s)
  unfolding release_reservation live
  release_reservation-Released q id now later s free due =
      elim (Option-cases (T.find id s.reservations)) [
        | inl e ↦ rw (release_reservation, e) (record { reservations = λ j res f. f; shown = refl })
        | inr (res, e) ↦
            let other = free id res e (due res e) in
            elim (Option-cases (T.find res.key s.entries)) [
              | inl n ↦
                  rw (release_reservation, e, n)
                    (record {
                      reservations = λ j r f. find_erased id j r s.reservations f;
                      shown = rw (T.find-insert res.key q _ s.entries, other) refl;
                    })
              | inr (old, n) ↦
                  rw (release_reservation, e, n)
                    (record {
                      reservations = λ j r f. find_erased id j r s.reservations f;
                      shown = rw (T.find-write res.key q _ s.entries, other) refl;
                    })
            ]
      ]

  IsDue-still :
      (q id : Bytes) (now later : ℕ) (s s' : StorageShard) (ids : List Bytes)
      → Released q id now later s s'
      → AllKeys (IsDue now s.reservations) ids
      → AllKeys (IsDue now s'.reservations) ids
  IsDue-still q id now later s s' [] r all = tt
  IsDue-still q id now later s s' (j ∷ ids) r all =
      (λ res e. all.0 res (r.reservations j res e), IsDue-still q id now later s s' ids r all.1)

  live-release_all :
      (q : Bytes) (ids : List Bytes) (now later : ℕ) (s : StorageShard)
      → NoRefund q now s
      → AllKeys (IsDue now s.reservations) ids
      → live q later (release_all now ids s) ≡ live q later s
  unfolding release_all
  live-release_all q [] now later s free all = refl
  live-release_all q (id ∷ ids) now later s free all =
      let s' = release_reservation now id s in
      let r = release_reservation-Released q id now later s free all.0 in
      live-release_all q ids now later s' (λ j res e due. free j res (r.reservations j res e) due)
        (IsDue-still q id now later s s' ids r all.1)
      ∙ r.shown

  expired-IsGone :
      (now : ℕ) (q : Bytes) (e : Entry) (t : T.Table Entry)
      → T.find q t ≡ some e
      → is_expired e now ≡ true
      → IsGone now t q
  unfolding is_expired
  expired-IsGone now q e t f x = ground (arith, f, x)

  -- `PurgeExpired` on a shard changes nothing that a key shows at the same or a later time, if no
  -- reservation of the key has expired, whatever the sample limit is.
  pub live-purge_expired :
      (q : Bytes) (sample_limit now later : ℕ) (s : StorageShard)
      → now ≤ later
      → NoRefund q now s
      → live q later (purge_expired sample_limit now s).1 ≡ live q later s
  unfolding purge_expired live
  live-purge_expired q sample_limit now later s h free =
      let expired_keys =
        sample (λ (e : Entry). is_expired e now) sample_limit (T.entries s.entries) [] in
      let swept : StorageShard = record s { entries = erase_keys expired_keys s.entries } in
      let gone : AllKeys (IsGone now s.entries) expired_keys =
        sampled (IsGone now s.entries) (λ (e : Entry). is_expired e now) sample_limit s.entries
          (λ k e f x. expired-IsGone now k e s.entries f x) in
      let swept_shows : live q later swept ≡ live q later s =
        unfold live in erase_keys-IsGone expired_keys q now later s.entries h gone in
      let due =
        sampled (IsDue now s.reservations) (λ (r : Reservation). has_expired r now) sample_limit
          s.reservations (λ id r f x res g. same_reservation id r res s.reservations f g x) in
      live-release_all q
        (sample (λ (r : Reservation). has_expired r now) sample_limit (T.entries s.reservations) [])
        now later swept free due
      ∙ swept_shows
    where
      same_reservation :
          (id : Bytes) (r res : Reservation) (t : T.Table Reservation)
          → T.find id t ≡ some r
          → T.find id t ≡ some res
          → has_expired r now ≡ true
          → has_expired res now ≡ true
      same_reservation id r res t f g x = ground (arith, f, g, x)
