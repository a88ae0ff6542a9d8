-- ===== src/Sidecar/Process/Fresh.antt =====
-- No two requests of the batcher share a result channel, and no channel gets a second result.
use mathlib.Core.List.{map-append, append_assoc, perm_middle, Nodup}
use mathlib.Core.List.Nodup
use distri_inference_sidecar.VramGuard.{is_open}
use mathlib.Core.List.Perm
use distri_inference_sidecar.Prelude.{
  ℕ, ◌≡◌, refl, subst, Bool, Option, none, some, List, [], ◌∷◌, ◌++◌, map, Perm, swap_blocks,
}
use distri_inference_sidecar.Metrics.{Metrics}
use distri_inference_sidecar.VramGuard.Readers.{Nvml}
use distri_inference_sidecar.Batcher.Types.{Request}
use distri_inference_sidecar.Batcher.Delivery.{channels}
use distri_inference_sidecar.Batcher.System
use distri_inference_sidecar.Batcher.System.{System, pending}
use distri_inference_sidecar.Batcher.System.Ledger.{Reach-ledger}
use distri_inference_sidecar.GrpcServer.{
  Reply, Status, submitted, infer_wait, received, context_done,
}
use distri_inference_sidecar.Sidecar.{RuntimeConfig, batcher_config}
use distri_inference_sidecar.Sidecar.Process.{
  Phase, arrived, read, waiting, Call, Process, World, Step, arrives, reads, submits, receives,
  leaves, batches, watches, updates, ends_updates, is_signalled, rpcs_finish, stops, stops_guard,
  serves, http_breaks, closes, finishes, Reach, here, next, launch, submit_call, after_call,
  record_waiting,
}
use distri_inference_sidecar.Sidecar.Process.Batching.{Reach-batching}
use distri_inference_sidecar.Sidecar.Process.Calls.{below, Nodup-below}
use distri_inference_sidecar.Batcher.System.Own.{kept-IsOwn, accepted-IsStop}

-- The number of an RPC that has not submitted its request yet.
abbrev unsent : Phase → ℕ → List ℕ
unsent arrived id = id ∷ []
unsent (read c) id = id ∷ []
unsent waiting id = []

abbrev entering : List Call → List ℕ
entering [] = []
entering (c ∷ cs) = unsent c.phase c.id ++ entering cs

entering-middle :
    (before after : List Call) (c : Call)
    → Perm (entering (before ++ c ∷ after)) (unsent c.phase c.id ++ entering (before ++ after))
entering-middle [] after c = Perm.rfl
entering-middle (b ∷ before) after c =
    Perm.trans (Perm.append_left (unsent b.phase b.id) (entering-middle before after c))
      (swap_blocks (unsent b.phase b.id) (unsent c.phase c.id) (entering (before ++ after)))

-- The numbers given so far are, each once, those of the batcher's requests, of the RPCs that have
-- not submitted theirs, and of the refused ones.
abbrev chans : List Request → List ℕ
chans = map (λ r. r.result_ch)

record IsFresh {F : Type 0} (p : Process F) : Type 0 where
  refused : List ℕ
  ledger : Perm (chans p.system.accepted ++ (entering p.calls ++ refused)) (below p.next_id)

-- An RPC that has not submitted its request.
abbrev IsEntering : Call → Type 0
IsEntering c = unsent c.phase c.id ≡ c.id ∷ []

entering-out :
    (before after : List Call) (c : Call)
    → IsEntering c
    → Perm (c.id ∷ entering (before ++ after)) (entering (before ++ c ∷ after))
entering-out before after c e = Perm.symm (
    subst (λ u. Perm (entering (before ++ c ∷ after)) (u ++ entering (before ++ after))) e
      (entering-middle before after c))

entering-drop :
    (before after : List Call) (c : Call)
    → c.phase ≡ waiting
    → Perm (entering (before ++ after)) (entering (before ++ c ∷ after))
entering-drop before after c e = Perm.symm (
    subst
      (λ ph. Perm (entering (before ++ c ∷ after)) (unsent ph c.id ++ entering (before ++ after))) e
      (entering-middle before after c))

entering-read :
    (before after : List Call) (c : Call) (is_open : Bool)
    → IsEntering c
    → Perm
        (entering (before ++ record c { phase = read is_open } ∷ after))
        (entering (before ++ c ∷ after))
entering-read before after c is_open e =
    Perm.trans (entering-middle before after (record c { phase = read is_open }))
      (entering-out before after c e)

-- The RPCs in progress change, and the batcher's requests do not.
with_calls :
    {F : Type 0} (p : Process F) (cs : List Call) (rs : List (ℕ × Reply))
    → Perm (entering cs) (entering p.calls)
    → IsFresh p
    → IsFresh (record p { calls = cs; replies = rs })
with_calls p cs rs e h = record {
  refused = h.refused;
  ledger =
      Perm.trans (Perm.append_left (chans p.system.accepted) (Perm.append_right h.refused e))
        h.ledger;
}

after_call-IsFresh :
    {F : Type 0} (before after : List Call) (c : Call) (st : Option Status) (p : Process F)
    (s : System)
    → p.calls ≡ before ++ c ∷ after
    → IsEntering c
    → s.accepted ≡ record_waiting st (submitted c.req c.id c.id) p.system.accepted
    → IsFresh p
    → IsFresh (after_call before after c st (record p { system = s }))
after_call-IsFresh before after c none p s e a q h = record {
  refused = h.refused;
  ledger =
      rw
        (
          q,
          map-append (λ r. r.result_ch) p.system.accepted (submitted c.req c.id c.id ∷ []),
          append_assoc,
        )
        (Perm.trans (Perm.append_left (chans p.system.accepted) (Perm.append_right h.refused out))
          h.ledger);
}
  where
    out : Perm (c.id ∷ entering (before ++ record c { phase = waiting } ∷ after)) (entering p.calls)
    out = rw e (
        Perm.trans (Perm.cons c.id (entering-middle before after (record c { phase = waiting })))
          (entering-out before after c a))
after_call-IsFresh before after c (some st) p s e a q h = record {
  refused = c.id ∷ h.refused;
  ledger = rw q (
      Perm.trans
        (Perm.append_left (chans p.system.accepted) (
          Perm.trans (perm_middle (entering (before ++ after)) h.refused)
            (Perm.append_right h.refused out)))
        h.ledger);
}
  where
    out : Perm (c.id ∷ entering (before ++ after)) (entering p.calls)
    out = rw e (entering-out before after c a)

with_system :
    {F : Type 0} (p : Process F) (s : System)
    → s.accepted ≡ p.system.accepted
    → IsFresh p
    → IsFresh (record p { system = s })
with_system p s e h = record { refused = h.refused; ledger = rw e h.ledger }

module _ (w : World) where
  Step-IsFresh : {p q : Process w.fl.F} → Step w p q → IsFresh p → IsFresh q
  unfolding submit_call
  Step-IsFresh {p} (arrives req e l) h = record {
    refused = h.refused;
    ledger =
        Perm.trans (perm_middle (chans p.system.accepted) (entering p.calls ++ h.refused))
          (Perm.cons p.next_id h.ledger);
  }
  Step-IsFresh {p} (reads before after call e a) h =
      with_calls p (before ++ record call { phase = read (is_open w.fl p.watch.guard) } ∷ after)
        p.replies (rw e (entering-read before after call (is_open w.fl p.watch.guard) (rw a))) h
  Step-IsFresh {p} (submits before after call c e a) h =
      let out = submit_call w.bpe_count c call p.system in
      after_call-IsFresh before after call out.1 p out.0 e (rw a) refl h
  Step-IsFresh {p} (receives before after call earlier later r e a i) h =
      with_calls p (before ++ after) ((call.id, infer_wait call.req (received r)) ∷ p.replies)
        (rw e (entering-drop before after call a)) h
  Step-IsFresh {p} (leaves before after call x e a) h =
      with_calls p (before ++ after) ((call.id, infer_wait call.req (context_done x)) ∷ p.replies)
        (rw e (entering-drop before after call a)) h
  Step-IsFresh {p} (batches s st own) h = with_system p s (kept-IsOwn st own).0 h
  Step-IsFresh {p} (stops s st e own) h = with_system p s (accepted-IsStop st own) h
  Step-IsFresh (watches x st) h = record { refused = h.refused; ledger = h.ledger }
  Step-IsFresh (updates u) h = record { refused = h.refused; ledger = h.ledger }
  Step-IsFresh (ends_updates u v) h = record { refused = h.refused; ledger = h.ledger }
  Step-IsFresh (is_signalled e) h = record { refused = h.refused; ledger = h.ledger }
  Step-IsFresh (rpcs_finish e c) h = record { refused = h.refused; ledger = h.ledger }
  Step-IsFresh (stops_guard e c) h = record { refused = h.refused; ledger = h.ledger }
  Step-IsFresh (serves x st) h = record { refused = h.refused; ledger = h.ledger }
  Step-IsFresh (http_breaks d g) h = record { refused = h.refused; ledger = h.ledger }
  Step-IsFresh (closes x d g) h = record { refused = h.refused; ledger = h.ledger }
  Step-IsFresh (finishes e g) h = record { refused = h.refused; ledger = h.ledger }

  Reach-IsFresh :
      (api : Nvml) (cfg : RuntimeConfig w.fl.F) (m : Metrics) {p : Process w.fl.F}
      → Reach w (launch w api cfg m) p
      → IsFresh p
  unfolding launch System.start
  Reach-IsFresh api cfg m here = record { refused = []; ledger = Perm.nil }
  Reach-IsFresh api cfg m (next r st) = Step-IsFresh st (Reach-IsFresh api cfg m r)

module _ (w : World) where
  -- In every reachable state no two accepted requests share a result channel, and no channel has
  -- got more than one result: with their buffer of one, no send of a flush or a drain blocks.
  pub Reach-Nodup :
      (api : Nvml) (cfg : RuntimeConfig w.fl.F) (m : Metrics) {p : Process w.fl.F}
      → Reach w (launch w api cfg m) p
      → Nodup (map (λ r. r.result_ch) p.system.accepted) × Nodup (channels p.system.b.out.sent)
  Reach-Nodup api cfg m {p} reach =
      let fresh = Reach-IsFresh w api cfg m reach in
      let distinct =
        Nodup.of_append_left (entering p.calls ++ fresh.refused)
          (Perm.nodup (Perm.symm fresh.ledger) (Nodup-below p.next_id)) in
      (
        distinct,
        Nodup.of_append_left (chans (pending p.system)) (
            Perm.nodup
              (Perm.symm (Reach-ledger (batcher_config cfg) m (Reach-batching w api cfg m reach)))
              distinct),
      )
