-- ===== src/Foreman/Tracking.antt =====
-- `update_minions` keeps one open thread for each machine.
use mathlib.Core.List.Perm
use k_elda_archive.Base.{
  ℕ, ◌≡◌, ◌≢◌, refl, sym, ap, ◌∙◌, String, true, false, not, ◌||◌, ◌&&◌, List, [], ◌∷◌, Perm, some,
  get, delete, keys, has, Distinct, str_discrete, Outcome, ok, MapRange, arith, All,
  has-keys-delete_ne, has-keys-delete_self, Bool-cases, inl, inr, has-of_get-none, Option-cases,
  has_of_mem, has_self, mem_of_has, not_mem_of_has, Nodup-of_Distinct, Distinct-of_Nodup,
}
use k_elda_archive.Db.Rows.{Machine}
use k_elda_archive.Foreman.Threads.{Threads, start_missing, stop_unseen, update_minions}
use k_elda_archive.Foreman.ThreadLaws.{
  IsOpen, listed, stopped, chan-open, stopped-IsOpen, start_missing-IsStarted,
}

get-delete_ne :
    (j k : String) (m : List (String × ℕ))
    → j ≢ k
    → get str_discrete j (delete str_discrete k m) ≡ get str_discrete j m
unfolding get delete
get-delete_ne j k [] n = refl
get-delete_ne j k (e ∷ m) n = ground (arith, get-delete_ne j k m)

-- What the loop over the map leaves: the entries that were seen, or not come by.
record IsStopped (seen ids : List String) (th : Threads) (o : Outcome Threads) : Type 0 where
  after : Threads
  result : o ≡ ok after
  valid : IsOpen after
  tracked :
      (id : String)
      → has str_discrete id (keys after.chans) ≡ (
          has str_discrete id (keys th.chans)
          && (has str_discrete id seen || not (has str_discrete id ids)))
  kept :
      (id : String)
      → has str_discrete id seen ≡ true
      → get str_discrete id after.chans ≡ get str_discrete id th.chans

abbrev Present : Threads → String → Type 0
Present th id = has str_discrete id (keys th.chans) ≡ true

Present-later :
    (id : String) (n : ℕ) (ids : List String) (th : Threads)
    → has str_discrete id ids ≡ false
    → All (Present th) ids
    → All (Present (stopped id n th)) ids
unfolding has
Present-later id n [] th h a = tt
Present-later id n (i ∷ ids) th h a = (
  has-keys-delete_ne str_discrete i id th.chans (λ p. ground (arith, sym p)) ∙ a.0,
  Present-later id n ids th (ground arith) a.1,
)

stop_unseen-IsStopped :
    (seen ids : List String) (th : Threads)
    → IsOpen th
    → Distinct str_discrete ids
    → All (Present th) ids
    → IsStopped seen ids th (stop_unseen seen ids th)
unfolding stop_unseen has
stop_unseen-IsStopped seen [] th v d p = record {
  after = th;
  result = refl;
  valid = v;
  tracked = λ id. ground arith;
  kept = λ id h. refl;
}
stop_unseen-IsStopped seen (id ∷ ids) th v d p = elim (Bool-cases (has str_discrete id seen)) [
  | inl h ↦
      let a = stop_unseen-IsStopped seen ids th v d.1 p.1 in
      record {
        after = a.after;
        result = rw h a.result;
        valid = a.valid;
        tracked = λ j. ground (arith, a.tracked j, ap (λ i. has str_discrete i seen));
        kept = a.kept;
      }
  | inr h ↦ elim (Option-cases (get str_discrete id th.chans)) [
    | inl e ↦ absurd (ground (arith, has-of_get-none str_discrete id th.chans e, p.0))
    | inr (ch, e) ↦
        let th' = stopped id ch th in
        let a =
          stop_unseen-IsStopped seen ids th' (stopped-IsOpen id ch th e v) d.1
            (Present-later id ch ids th d.0 p.1) in
        record {
          after = a.after;
          result = rw (h, e, chan-open id ch th e v) a.result;
          valid = a.valid;
          tracked = λ j. elim (str_discrete j id) [
            | yes q ↦ ground (
              arith,
              a.tracked j,
              ap (λ i. has str_discrete i (keys th'.chans)) q,
              has-keys-delete_self str_discrete id th.chans v.ids,
              ap (λ i. has str_discrete i seen) q,
              h,
            )
            | no q ↦ ground (arith, a.tracked j, has-keys-delete_ne str_discrete j id th.chans q)
          ];
          kept = λ j k.
              a.kept j k
              ∙ get-delete_ne j id th.chans
                  (λ q. ground (arith, ap (λ i. has str_discrete i seen) q));
        }
  ]
]

-- The invariant, and one entry for each cloud ID of a machine; a thread that ran for one of them runs
-- on.
pub record IsTracking (machines : List Machine) (th : Threads) (o : Outcome Threads) : Type 0 where
  pub after : Threads
  pub result : o ≡ ok after
  pub valid : IsOpen after
  pub tracked : (id : String) → has str_discrete id (keys after.chans) ≡ listed id machines
  pub kept :
      (id : String) (ch : ℕ)
      → listed id machines ≡ true
      → get str_discrete id th.chans ≡ some ch
      → get str_discrete id after.chans ≡ some ch

All-Present :
    (th : Threads) (ids : List String)
    → ((id : String) → has str_discrete id ids ≡ true → Present th id)
    → All (Present th) ids
unfolding has
All-Present th [] f = tt
All-Present th (id ∷ ids) f =
    (f id (has_self str_discrete id ids), All-Present th ids (λ i h. f i (ground arith)))

has-perm :
    (xs ys : List String) (x : String) → Perm xs ys → has str_discrete x xs ≡ has str_discrete x ys
has-perm xs ys x p = elim (Bool-cases (has str_discrete x xs)) [
  | inl h ↦
      h ∙ sym (has_of_mem str_discrete x ys ((Perm.mem_iff p).0 (mem_of_has str_discrete x xs h)))
  | inr h ↦ elim (Bool-cases (has str_discrete x ys)) [
    | inl k ↦
        absurd
          (not_mem_of_has str_discrete x xs h ((Perm.mem_iff p).1 (mem_of_has str_discrete x ys k)))
    | inr k ↦ h ∙ sym k
  ]
]

-- If the map of stop channels has one entry for each thread that was started and not told to stop,
-- with distinct IDs and channels, then updateMinions does not panic, keeps this, and leaves entries
-- for the cloud IDs of just the given machines; the threads of machines that stay run on with their
-- channels.
pub update_minions-IsTracking :
    (order : MapRange String) (machines : List Machine) (th : Threads)
    → IsOpen th
    → IsTracking machines th (update_minions order machines th)
unfolding update_minions has
update_minions-IsTracking order machines th v =
    let s = start_missing machines ([], th) in
    let a = start_missing-IsStarted machines [] th v in
    let ids = order.range (keys s.1.chans) in
    let same =
      λ (id : String). has-perm ids (keys s.1.chans) id (order.range-perm (keys s.1.chans)) in
    let b =
      stop_unseen-IsStopped s.0 ids s.1 a.valid
        (Distinct-of_Nodup str_discrete ids (
          Perm.nodup (Perm.symm (order.range-perm (keys s.1.chans)))
            (Nodup-of_Distinct str_discrete (keys s.1.chans) a.valid.ids)))
        (All-Present s.1 ids (λ id h. sym (same id) ∙ h)) in
    record {
      after = b.after;
      result = b.result;
      valid = b.valid;
      tracked = λ id. ground (arith, b.tracked id, same id, a.tracked id, a.seen_after id);
      kept = λ id ch h g. b.kept id (a.seen_after id ∙ h) ∙ a.kept id ch g;
    }
