-- ===== src/Sidecar/Process/Parts.antt =====
-- The process in terms of its parts: the batcher and the guard run in it as they run on
-- their own, under the configuration that main has loaded.
use Prim.Native.Nat.{max}
use distri_inference_sidecar.Prelude.{◌≡◌, refl, sym, ap, subst, Option, none, some, List}
use distri_inference_sidecar.Prelude.Int.{pos_part}
use distri_inference_sidecar.Metrics
use distri_inference_sidecar.Metrics.{Metrics}
use distri_inference_sidecar.VramGuard.Readers.{Nvml, new_vram_reader}
use distri_inference_sidecar.VramGuard.Watch.Lifecycle.{new-IsWatched}
use distri_inference_sidecar.Batcher.System.Safety.{AllFit, start-IsSafe}
use distri_inference_sidecar.VramGuard.Watch
use distri_inference_sidecar.GrpcServer.{Status}
use distri_inference_sidecar.Sidecar.{RuntimeConfig, batcher_config, guard_config}
use distri_inference_sidecar.Sidecar.Process.{
  Call, Process, World, Step, arrives, reads, submits, receives, leaves, batches, watches, updates,
  ends_updates, is_signalled, rpcs_finish, stops, stops_guard, serves, http_breaks, closes,
  finishes, Reach, here, next, launch, submit_call, after_call,
}
use distri_inference_sidecar.Sidecar.Process.Batching.{Reach-batching}

watch-after_call :
    {F : Type 0} (before after : List Call) (c : Call) (st : Option Status) (p : Process F)
    → (after_call before after c st p).watch ≡ p.watch
watch-after_call before after c none p = refl
watch-after_call before after c (some st) p = refl

module _ (w : World) (v : Watch.Watch w.fl.F) where
  Step-watching :
      {p q : Process w.fl.F}
      → Step w p q
      → Watch.Reach w.fl w.quote v p.watch
      → Watch.Reach w.fl w.quote v q.watch
  Step-watching (arrives req e l) h = h
  Step-watching (reads before after call e a) h = h
  Step-watching {p} (submits before after call c e a) h =
      let out = submit_call w.bpe_count c call p.system in
      subst (Watch.Reach w.fl w.quote v)
        (sym (watch-after_call before after call out.1 (record p { system = out.0 }))) h
  Step-watching (receives before after call earlier later r e a i) h = h
  Step-watching (leaves before after call x e a) h = h
  Step-watching (batches s st own) h = h
  Step-watching (watches x st) h = Watch.next h st
  Step-watching (updates u) h = h
  Step-watching (ends_updates u k) h = h
  Step-watching (is_signalled e) h = h
  Step-watching (rpcs_finish e c) h = h
  Step-watching (stops s st e own) h = h
  Step-watching (stops_guard e d) h = Watch.stops h
  Step-watching (serves x st) h = h
  Step-watching (http_breaks d g) h = h
  Step-watching (closes x d g) h = h
  Step-watching (finishes e g) h = h

module _ (w : World) (api : Nvml) (cfg : RuntimeConfig w.fl.F) (m : Metrics) where
  Reach-watching :
      {p : Process w.fl.F}
      → Reach w (launch w api cfg m) p
      → Watch.Reach w.fl w.quote (Watch.new w.fl api (guard_config cfg) (some m)) p.watch
  unfolding launch
  Reach-watching here = Watch.here
  Reach-watching (next r st) = Step-watching w _ st (Reach-watching r)

-- The batcher and the guard at work under what was loaded for each of them.
pub record IsConfigured {F : Type 0} (api : Nvml) (cfg : RuntimeConfig F) (p : Process F)
    : Type 0 where
  pub batches_fit : AllFit (max 1 (pos_part cfg.max_batch_size)) p.system.flights
  pub wait : p.system.b.cfg.max_wait_ms ≡ cfg.max_wait_ms
  pub timeout : p.system.b.cfg.backend_timeout_ms ≡ cfg.backend_timeout_ms
  pub url : p.system.b.cfg.backend_url ≡ cfg.backend_url
  pub opening : p.watch.guard.cfg.oom_threshold_pct ≡ cfg.oom_threshold_pct
  pub closing : p.watch.guard.cfg.close_threshold_pct ≡ cfg.close_threshold_pct
  pub polling : p.watch.guard.cfg.poll_interval_ms ≡ cfg.poll_interval_ms
  pub reader : p.watch.reader ≡ (new_vram_reader api cfg.vram_reader_mode).0

-- In every state that main's process reaches with fresh metrics, the loaded configuration is at
-- work in each part: each batch in flight has at least one request and at most MAX_BATCH_SIZE, or
-- one if that is not positive; the wait, the timeout and the URL of the batcher, and the thresholds
-- and the interval of the guard, are those loaded under their names; and the reader is the one
-- chosen at first for the loaded mode.
pub Reach-IsConfigured :
    (w : World) (api : Nvml) (cfg : RuntimeConfig w.fl.F) {p : Process w.fl.F}
    → Reach w (launch w api cfg Metrics.new) p
    → IsConfigured api cfg p
Reach-IsConfigured w api cfg reach =
    let safe =
      start-IsSafe (batcher_config cfg) Metrics.new (Reach-batching w api cfg Metrics.new reach) in
    let watched =
      new-IsWatched w.fl w.quote api (guard_config cfg)
        (Reach-watching w api cfg Metrics.new reach) in
    record {
      batches_fit = safe.flights_fit;
      wait = ap (λ c. c.max_wait_ms) safe.config;
      timeout = ap (λ c. c.backend_timeout_ms) safe.config;
      url = ap (λ c. c.backend_url) safe.config;
      opening = ap (λ c. c.oom_threshold_pct) watched.config;
      closing = ap (λ c. c.close_threshold_pct) watched.config;
      polling = ap (λ c. c.poll_interval_ms) watched.config;
      reader = watched.reader;
    }
