-- ===== src/Batcher/System/Ledger.antt =====
-- No request is lost or answered twice: at every moment the accepted requests are those with a
-- result, those in the queue, those in the loop's batch and those in flight.
use mathlib.Core.List.{append-nil, map-append, append_assoc, perm_middle, flatten}
use mathlib.Core.List.{perm_append_singleton}
use mathlib.Core.List.Perm
use distri_inference_sidecar.Prelude.{
  ℕ, ◌≡◌, refl, subst, Bool, true, false, Option, none, some, List, [], ◌∷◌, ◌++◌, map, Perm,
  swap_blocks, Bool-cases, ◌⊎◌, ltb, length, inl, inr, if◌then◌else◌,
}
use distri_inference_sidecar.Errors.{GoError}
use distri_inference_sidecar.Metrics.{Metrics}
use distri_inference_sidecar.Batcher.Types.{Config, Request, Delivery, Out}
use distri_inference_sidecar.Batcher.Flush.{fail_request}
use distri_inference_sidecar.Batcher.Delivery.{channels, flush_batch-once}
use distri_inference_sidecar.Batcher.Queue.{Batcher, submit, enqueue, is_full, drain_error}
use distri_inference_sidecar.Batcher.System.{
  System, Loop, top, collecting, collected, draining, returned, Step, submits, peeks, receives,
  times_out, sees_stop, dispatches, drains, returns, flushes, ticks, stops_tracking, rejects, locks,
  signals, waits, Reach, here, next, start, after_submit, take_request, dispatch, held, pending,
}

abbrev chans : List Request → List ℕ
chans = map (λ r. r.result_ch)

-- Results sent, then requests pending.
abbrev entries : List Delivery → List Request → List ℕ
entries sent rs = channels sent ++ chans rs

abbrev pub IsBalanced : System → Type 0
IsBalanced s = Perm (entries s.b.out.sent (pending s)) (chans s.accepted)

entries-perm :
    (sent : List Delivery) {rs qs : List Request}
    → Perm rs qs
    → Perm (entries sent rs) (entries sent qs)
entries-perm sent p = Perm.append_left (channels sent) (Perm.map _ p)

-- A result moves a request from the pending ones to the sent ones.
entries-move :
    (sent later : List Delivery) (rs qs ps : List Request)
    → Perm (channels later) (channels sent ++ chans rs)
    → Perm qs (rs ++ ps)
    → Perm (entries later ps) (entries sent qs)
entries-move sent later rs qs ps p q =
    Perm.trans (Perm.append_right (chans ps) p)
      (rw (append_assoc, ← map-append) (Perm.symm (entries-perm sent q)))

pub flatten-concat :
    (bs : List (List Request)) (b : List Request) → Perm (flatten (bs ++ b ∷ [])) (b ++ flatten bs)
unfolding flatten
flatten-concat [] b = Perm.rfl
flatten-concat (x ∷ bs) b =
    Perm.trans (Perm.append_left x (flatten-concat bs b)) (swap_blocks x b (flatten bs))

flatten-middle :
    (before after : List (List Request)) (b : List Request)
    → Perm (flatten (before ++ b ∷ after)) (b ++ flatten (before ++ after))
unfolding flatten
flatten-middle [] after b = Perm.rfl
flatten-middle (x ∷ before) after b =
    Perm.trans (Perm.append_left x (flatten-middle before after b)) (swap_blocks x b _)

pub take-perm :
    (rest batch : List Request) (r : Request) (fs : List Request)
    → Perm (rest ++ ((batch ++ r ∷ []) ++ fs)) (r ∷ (rest ++ (batch ++ fs)))
take-perm rest batch r fs =
    rw (append_assoc batch (r ∷ []) fs)
      (Perm.trans (Perm.append_left rest (perm_middle batch fs)) (perm_middle rest (batch ++ fs)))

pub flight-perm :
    (s : System) (before after : List (List Request)) (batch : List Request)
    → s.flights ≡ before ++ batch ∷ after
    → Perm (pending s) (batch ++ (s.b.queue ++ (held s.loop ++ flatten (before ++ after))))
flight-perm s before after batch e =
    Perm.trans
      (Perm.append_left s.b.queue (
        Perm.trans (Perm.append_left (held s.loop) (rw e (flatten-middle before after batch)))
          (swap_blocks (held s.loop) batch _)))
      (swap_blocks s.b.queue batch _)

keep-pending :
    (sent : List Delivery) {rs qs : List Request} {cs : List ℕ}
    → Perm rs qs
    → Perm (entries sent qs) cs
    → Perm (entries sent rs) cs
keep-pending sent p h = Perm.trans (entries-perm sent p) h

channels-fail_request :
    (r : Request) (e : GoError) (out : Out)
    → channels (fail_request r e out).sent ≡ channels out.sent ++ r.result_ch ∷ []
unfolding fail_request
channels-fail_request r e out = rw map-append

keep-loop :
    (s : System) (l : Loop)
    → held l ≡ held s.loop
    → IsBalanced s
    → IsBalanced (record s { loop = l })
keep-loop s l e h =
    keep-pending s.b.out.sent
      (Perm.append_left s.b.queue (Perm.append_right (flatten s.flights) (rw e Perm.rfl))) h

pub held-if :
    (c : Bool) (l k : Loop) (rs : List Request)
    → held l ≡ rs
    → held k ≡ rs
    → held (if c then l else k) ≡ rs
held-if true l k rs p q = p
held-if false l k rs p q = q

-- A refused submission changes nothing but a counter.
abbrev Refused : Batcher → Batcher × Option GoError → Type 0
Refused b (b', e) = (x : GoError) × (e ≡ some x) × (b'.queue ≡ b.queue) × (b'.out.sent ≡ b.out.sent)

abbrev Accepted : Request → Batcher → Batcher × Option GoError → Type 0
Accepted r b (b', e) = (e ≡ none) × (b'.queue ≡ b.queue ++ r ∷ []) × (b'.out.sent ≡ b.out.sent)

pub submit_cases :
    (is_open : Bool) (r : Request) (b : Batcher)
    → Refused b (submit is_open r b) ⊎ Accepted r b (submit is_open r b)
unfolding submit
submit_cases true r b = inl (_, refl, refl, refl)
submit_cases false r b = elim (Bool-cases b.stopped) [
  | inl e ↦ rw (e, enqueue) (inl (_, refl, refl, refl))
  | inr e ↦ elim (Bool-cases (ltb (length b.queue) 1000)) [
    | inl f ↦ rw (e, f, enqueue) (inr (refl, refl, refl))
    | inr f ↦ rw (e, f, enqueue) (inl (_, refl, refl, refl))
  ]
]

submit-IsBalanced :
    (s : System) (is_open : Bool) (r : Request)
    → IsBalanced s
    → IsBalanced (after_submit is_open r s)
unfolding after_submit
submit-IsBalanced s is_open r h = elim (submit_cases is_open r s.b) [
  | inl (x, e, q, d) ↦ rw (e, q, d) h
  | inr (e, q, d) ↦
      rw (e, q, d, map-append _ s.accepted (r ∷ []))
        (Perm.trans
          (entries-perm s.b.out.sent {qs = r ∷ pending s}
            (rw append_assoc (perm_middle s.b.queue (held s.loop ++ flatten s.flights))))
          (Perm.trans (perm_middle (channels s.b.out.sent) (chans (pending s))) (
            Perm.trans (Perm.cons r.result_ch h)
              (Perm.symm (perm_append_singleton r.result_ch (chans s.accepted))))))
]

-- Every step keeps the ledger.
pub Step-IsBalanced : {s t : System} → Step s t → IsBalanced s → IsBalanced t
unfolding take_request dispatch
Step-IsBalanced {s} (submits is_open r) h = submit-IsBalanced s is_open r h
Step-IsBalanced {s} (peeks e) h =
    keep-loop s (if s.b.stop_closed then draining else collecting [])
      (rw e (held-if s.b.stop_closed draining (collecting []) [] refl refl)) h
Step-IsBalanced {s} (receives batch r rest e q) h =
    rw
      (held-if (is_full s.b.cfg (batch ++ r ∷ [])) (collected (batch ++ r ∷ []))
        (collecting (batch ++ r ∷ [])) (batch ++ r ∷ []) refl refl)
      (keep-pending s.b.out.sent (rw (q, e) (take-perm rest batch r (flatten s.flights))) h)
Step-IsBalanced {s} (times_out batch e) h = keep-loop s (collected batch) (rw e) h
Step-IsBalanced {s} (sees_stop batch e c) h = keep-loop s (collected batch) (rw e) h
Step-IsBalanced {s} (dispatches [] e) h =
    keep-loop s (if s.b.stop_closed then draining else top)
      (rw e (held-if s.b.stop_closed draining top [] refl refl)) h
Step-IsBalanced {s} (dispatches (r ∷ rs) e) h =
    keep-pending s.b.out.sent
      (Perm.append_left s.b.queue (rw e (flatten-concat s.flights (r ∷ rs)))) h
Step-IsBalanced {s} (drains r rest e q) h =
    Perm.trans
      (entries-move s.b.out.sent (fail_request r drain_error s.b.out).sent (r ∷ []) (pending s)
        (rest ++ (held s.loop ++ flatten s.flights)) (rw channels-fail_request Perm.rfl)
        (rw q Perm.rfl))
      h
Step-IsBalanced {s} (returns e q) h = keep-loop s returned (rw e) h
Step-IsBalanced {s} (flushes env before after batch ranged e) h =
    Perm.trans
      (entries-move s.b.out.sent _ batch (pending s)
        (s.b.queue ++ (held s.loop ++ flatten (before ++ after)))
        (flush_batch-once env s.b.cfg ranged batch s.b.out) (flight-perm s before after batch e))
      h
Step-IsBalanced (ticks e) h = h
Step-IsBalanced (stops_tracking e c) h = h
Step-IsBalanced rejects h = h
Step-IsBalanced (locks e) h = h
Step-IsBalanced (signals e) h = h
Step-IsBalanced (waits e w) h = h

Reach-IsBalanced : {s t : System} → IsBalanced s → Reach s t → IsBalanced t
Reach-IsBalanced h here = h
Reach-IsBalanced h (next r st) = Step-IsBalanced st (Reach-IsBalanced h r)

-- In every state that a started batcher reaches, by any interleaving of submissions, collection,
-- flushes, draining and Stop, the accepted requests are, each once, those whose result is sent and
-- those in the queue, in the loop's batch or in a flight.
pub Reach-ledger :
    (cfg : Config) (m : Metrics) {s : System}
    → Reach (start cfg m) s
    → Perm
        (channels s.b.out.sent ++ map (λ r. r.result_ch) (pending s))
        (map (λ r. r.result_ch) s.accepted)
unfolding start flatten
Reach-ledger cfg m reach = Reach-IsBalanced {s = start cfg m} Perm.nil reach

-- With nothing pending, each accepted request has got exactly one result, and nothing else was sent.
pub pending-nil :
    (cfg : Config) (m : Metrics) {s : System}
    → Reach (start cfg m) s
    → pending s ≡ []
    → Perm (channels s.b.out.sent) (chans s.accepted)
pending-nil cfg m {s} reach h =
    subst (λ cs. Perm cs (chans s.accepted)) (append-nil (channels s.b.out.sent))
      (subst (λ rs. Perm (entries s.b.out.sent rs) (chans s.accepted)) h (Reach-ledger cfg m reach))
