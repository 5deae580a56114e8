-- ===== src/Foreman/ThreadLaws.antt =====
-- What `update_minions` leaves of the threads.
use mathlib.Core.List.{perm_append_comm, not-mem-nil, mem-cons, mem-cons_self, Perm-prop}
use mathlib.Core.List.Perm
use mathlib.Core.Bool.{Bool-set}
use mathlib.Core.Logic.Or
use k_elda_archive.Base.{
  ℕ, suc, ◌<◌, ◌≡◌, ◌≢◌, refl, sym, ap, subst, ◌∙◌, String, Bool, true, false, not, List, [], ◌∷◌,
  map, Perm, Mem, some, ◌||◌, if◌then◌else◌, ite, get, delete, delete-perm, keys, values, has,
  Distinct, insert_key, str_discrete, ℕ_discrete, arith, All, All-map, put-new, put-Distinct,
  delete-Distinct, has-keys-put, get-put, Bool-cases, inl, inr, has-of_get, keep,
}
use k_elda_archive.Db.Rows.{Machine}
use k_elda_archive.Foreman.Threads.{Threads, start_thread, start_missing}

-- Whether one of the machines has the cloud ID.
abbrev pub listed : String → List Machine → Bool
listed id ms = has str_discrete id (map (λ m. m.cloud_id) ms)

-- The threads that were started and not told to stop.
abbrev pub open_among : List ℕ → List (String × ℕ) → List (String × ℕ)
open_among closed started = keep (λ e. not (has ℕ_discrete e.1 closed)) started

-- The map has one entry for each thread that was started and not told to stop, no two threads share
-- a cloud ID or a channel, and the number of the next channel is new.
pub record IsOpen (th : Threads) : Type 0 where
  pub ids : Distinct str_discrete (keys th.chans)
  pub channels : Distinct ℕ_discrete (values th.started)
  pub made_started : All (λ c. c < th.made) (values th.started)
  pub made_closed : All (λ c. c < th.made) th.closed
  pub open_threads : Perm th.chans (open_among th.closed th.started)

below-not_has : (n : ℕ) (cs : List ℕ) → All (λ c. c < n) cs → has ℕ_discrete n cs ≡ false
unfolding has
below-not_has n [] a = refl
below-not_has n (c ∷ cs) a = ground (arith, below-not_has n cs a.1)

below-suc : (n : ℕ) (cs : List ℕ) → All (λ c. c < n) cs → All (λ c. c < suc n) cs
below-suc n cs a = All-map (λ c. c < n) (λ c. c < suc n) cs (λ c h. omega arith) a

open_among-cons :
    (closed : List ℕ) (id : String) (ch : ℕ) (started : List (String × ℕ))
    → has ℕ_discrete ch closed ≡ false
    → open_among closed ((id, ch) ∷ started) ≡ (id, ch) ∷ open_among closed started
unfolding keep
open_among-cons closed id ch started h = ground arith

start_thread-IsOpen :
    (id : String) (th : Threads)
    → has str_discrete id (keys th.chans) ≡ false
    → IsOpen th
    → IsOpen (start_thread id th)
unfolding has
start_thread-IsOpen id th h v = record {
  ids = put-Distinct str_discrete id th.made th.chans v.ids;
  channels = (below-not_has th.made (values th.started) v.made_started, v.channels);
  made_started = (omega arith, below-suc th.made (values th.started) v.made_started);
  made_closed = below-suc th.made th.closed v.made_closed;
  open_threads =
      rw
        (
          put-new str_discrete id th.made th.chans h,
          open_among-cons th.closed id th.made th.started
              (below-not_has th.made th.closed v.made_closed),
        )
        (Perm.trans (perm_append_comm th.chans ((id, th.made) ∷ []))
          (Perm.cons (id, th.made) v.open_threads));
}

open_among-other :
    (closed : List ℕ) (ch : ℕ) (started : List (String × ℕ))
    → has ℕ_discrete ch (values started) ≡ false
    → open_among (ch ∷ closed) started ≡ open_among closed started
unfolding keep has
open_among-other closed ch [] h = refl
open_among-other closed ch (e ∷ started) h = ground (arith, open_among-other closed ch started)

open_among-skip :
    (closed : List ℕ) (e : String × ℕ) (started : List (String × ℕ))
    → has ℕ_discrete e.1 closed ≡ true
    → open_among closed (e ∷ started) ≡ open_among closed started
unfolding keep
open_among-skip closed e started h = ground arith

not_open_nil : (closed : List ℕ) (e : String × ℕ) → ¬ Mem e (open_among closed [])
unfolding keep
not_open_nil closed e m = not-mem-nil m

has_first : (c ch : ℕ) (cs : List ℕ) → c ≡ ch → has ℕ_discrete c (ch ∷ cs) ≡ true
unfolding has
has_first c ch cs p = ground arith

has_later :
    (c ch : ℕ) (cs : List ℕ) (b : Bool)
    → c ≢ ch
    → has ℕ_discrete c cs ≡ b
    → has ℕ_discrete c (ch ∷ cs) ≡ b
unfolding has
has_later c ch cs b n h = ground arith

has_of_open :
    (closed : List ℕ) (id : String) (ch : ℕ) (started : List (String × ℕ))
    → Mem (id, ch) (open_among closed started)
    → has ℕ_discrete ch (values started) ≡ true
unfolding has
has_of_open closed id ch [] m = absurd (not_open_nil closed (id, ch) m)
has_of_open closed id ch (e ∷ started) m = elim (Bool-cases (has ℕ_discrete e.1 closed)) [
  | inl h ↦ ground (
    arith,
    has_of_open closed id ch started (subst (Mem (id, ch)) (open_among-skip closed e started h) m),
  )
  | inr h ↦
      Or.elim (Bool-set _ _)
        (mem-cons.0 (subst (Mem (id, ch)) (open_among-cons closed e.0 e.1 started h) m))
        (λ p. has_first ch e.1 (values started) (ap (λ x. x.1) p))
        (λ later. ground (arith, has_of_open closed id ch started later))
]

-- The channel of an open thread is not closed.
open-not_closed :
    (closed : List ℕ) (id : String) (ch : ℕ) (started : List (String × ℕ))
    → Mem (id, ch) (open_among closed started)
    → has ℕ_discrete ch closed ≡ false
open-not_closed closed id ch [] m = absurd (not_open_nil closed (id, ch) m)
open-not_closed closed id ch (e ∷ started) m = elim (Bool-cases (has ℕ_discrete e.1 closed)) [
  | inl h ↦
      open-not_closed closed id ch started
        (subst (Mem (id, ch)) (open_among-skip closed e started h) m)
  | inr h ↦
      Or.elim (Bool-set _ _)
        (mem-cons.0 (subst (Mem (id, ch)) (open_among-cons closed e.0 e.1 started h) m))
        (λ p. ap (λ c. has ℕ_discrete c closed) (ap (λ x. x.1) p) ∙ h)
        (λ later. open-not_closed closed id ch started later)
]

-- One thread less.
open_among-close :
    (closed : List ℕ) (id : String) (ch : ℕ) (started : List (String × ℕ))
    → Distinct ℕ_discrete (values started)
    → Mem (id, ch) (open_among closed started)
    → Perm (open_among closed started) ((id, ch) ∷ open_among (ch ∷ closed) started)
unfolding has
open_among-close closed id ch [] d m = absurd (not_open_nil closed (id, ch) m)
open_among-close closed id ch (e ∷ started) d m = elim (Bool-cases (has ℕ_discrete e.1 closed)) [
  | inl h ↦
      rw
        (open_among-skip closed e started h, open_among-skip (ch ∷ closed) e started (ground arith))
        (open_among-close closed id ch started d.1
          (subst (Mem (id, ch)) (open_among-skip closed e started h) m))
  | inr h ↦
      Or.elim Perm-prop
        (mem-cons.0 (subst (Mem (id, ch)) (open_among-cons closed e.0 e.1 started h) m))
        (λ p.
          rw
            (
              open_among-cons closed e.0 e.1 started h,
              open_among-skip (ch ∷ closed) e started
                  (has_first e.1 ch closed (sym (ap (λ x. x.1) p))),
              open_among-other closed ch started
                  (ap (λ c. has ℕ_discrete c (values started)) (ap (λ x. x.1) p) ∙ d.0),
            )
            (Perm.cons' (sym p) Perm.rfl))
        (λ later. elim (ℕ_discrete e.1 ch) [
          | yes p ↦ absurd (
              ground (
                arith,
                has_of_open closed id ch started later,
                ap (λ c. has ℕ_discrete c (values started)) p,
                d.0,
              ))
          | no n ↦
              rw
                (
                  open_among-cons closed e.0 e.1 started h,
                  open_among-cons (ch ∷ closed) e.0 e.1 started (has_later e.1 ch closed false n h),
                )
                (Perm.trans (Perm.cons e (open_among-close closed id ch started d.1 later))
                  (Perm.swap (id, ch) e _))
        ])
]

below-of_has : (n c : ℕ) (cs : List ℕ) → All (λ c. c < n) cs → has ℕ_discrete c cs ≡ true → c < n
unfolding has
below-of_has n c [] a h = cc
below-of_has n c (d ∷ cs) a h = elim (ℕ_discrete c d) [
  | yes p ↦ subst (λ x. x < n) (sym p) a.0
  | no p ↦ below-of_has n c cs a.1 (ground arith)
]

-- A thread told to stop.
abbrev pub stopped : String → ℕ → Threads → Threads
stopped id ch th = record th { chans = delete str_discrete id th.chans; closed = ch ∷ th.closed }

pub chan-open :
    (id : String) (ch : ℕ) (th : Threads)
    → get str_discrete id th.chans ≡ some ch
    → IsOpen th
    → has ℕ_discrete ch th.closed ≡ false
chan-open id ch th h v =
    let out = delete-perm str_discrete id th.chans ch h in
    open-not_closed th.closed id ch th.started
      ((Perm.mem_iff (Perm.trans (Perm.symm out) v.open_threads)).0 mem-cons_self)

pub stopped-IsOpen :
    (id : String) (ch : ℕ) (th : Threads)
    → get str_discrete id th.chans ≡ some ch
    → IsOpen th
    → IsOpen (stopped id ch th)
stopped-IsOpen id ch th h v =
    let out = delete-perm str_discrete id th.chans ch h in
    let m = (Perm.mem_iff (Perm.trans (Perm.symm out) v.open_threads)).0 mem-cons_self in
    record {
      ids = delete-Distinct str_discrete id th.chans v.ids;
      channels = v.channels;
      made_started = v.made_started;
      made_closed = (
        below-of_has th.made ch (values th.started) v.made_started
            (has_of_open th.closed id ch th.started m),
        v.made_closed,
      );
      open_threads = Perm.cons_inv (
          Perm.trans (Perm.symm out)
            (Perm.trans v.open_threads (open_among-close th.closed id ch th.started v.channels m)));
    }

-- What the loop over the machines leaves.
pub record IsStarted (seen : List String) (ms : List Machine) (th : Threads)
    (s : List String × Threads) : Type 0 where
  pub valid : IsOpen s.1
  pub seen_after :
      (id : String) → has str_discrete id s.0 ≡ (has str_discrete id seen || listed id ms)
  pub tracked :
      (id : String)
      → has str_discrete id (keys s.1.chans) ≡ (has str_discrete id (keys th.chans) || listed id ms)
  pub kept :
      (id : String) (ch : ℕ)
      → get str_discrete id th.chans ≡ some ch
      → get str_discrete id s.1.chans ≡ some ch

-- One round of the loop.
abbrev started_for : Machine → Threads → Threads
started_for m th =
    if has str_discrete m.cloud_id (keys th.chans) then th else start_thread m.cloud_id th

started_for-IsOpen : (m : Machine) (th : Threads) → IsOpen th → IsOpen (started_for m th)
started_for-IsOpen m th v = elim (Bool-cases (has str_discrete m.cloud_id (keys th.chans))) [
  | inl h ↦ rw h v
  | inr h ↦ rw h (start_thread-IsOpen m.cloud_id th h v)
]

started_for-tracked :
    (m : Machine) (th : Threads) (id : String)
    → has str_discrete id (keys (started_for m th).chans)
      ≡ (has str_discrete id (keys th.chans) || ite (str_discrete id m.cloud_id) true false)
started_for-tracked m th id = ground (
  arith,
  has-keys-put str_discrete id m.cloud_id th.made th.chans,
  ap (λ i. has str_discrete i (keys th.chans)),
)

started_for-kept :
    (m : Machine) (th : Threads) (id : String) (ch : ℕ)
    → get str_discrete id th.chans ≡ some ch
    → get str_discrete id (started_for m th).chans ≡ some ch
started_for-kept m th id ch h = ground (
  arith,
  get-put str_discrete id m.cloud_id th.made th.chans,
  has-of_get str_discrete id th.chans ch h,
)

pub start_missing-IsStarted :
    (ms : List Machine) (seen : List String) (th : Threads)
    → IsOpen th
    → IsStarted seen ms th (start_missing ms (seen, th))
unfolding start_missing has insert_key
start_missing-IsStarted [] seen th v = record {
  valid = v;
  seen_after = λ id. ground arith;
  tracked = λ id. ground arith;
  kept = λ id ch h. h;
}
start_missing-IsStarted (m ∷ ms) seen th v =
    let a =
      start_missing-IsStarted ms (insert_key str_discrete m.cloud_id seen) (started_for m th)
        (started_for-IsOpen m th v) in
    record {
      valid = a.valid;
      seen_after = λ id. ground (arith, a.seen_after id);
      tracked = λ id. ground (arith, a.tracked id, started_for-tracked m th id);
      kept = λ id ch h. a.kept id ch (started_for-kept m th id ch h);
    }
