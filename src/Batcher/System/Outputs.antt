-- ===== src/Batcher/System/Outputs.antt =====
-- Where the output of a successful result comes from.
use mathlib.Core.List.{
  Mem, Mem-prop, Subset, mem-cons, mem-cons_self, mem-cons_of_mem, mem-append, not-mem-nil, flatten,
}
use mathlib.Core.List.Perm
use mathlib.Core.Logic.Or
use mathlib.Core.Logic.{∥∥₁_map, ∥∥₁_prop}
use mathlib.Core.HLevel.{⊥_prop}
use distri_inference_sidecar.Prelude.{
  ℕ, ◌≡◌, ◌≢◌, refl, sym, subst, ap, ◌∙◌, Option, none, some, List, [], ◌∷◌, map, inl, inr, arith,
  Bytes, bytes_eq, bytes_eq_iff, Bool-cases, Option-cases,
}
use distri_inference_sidecar.Errors.{GoError, Fallible, ok, err}
use distri_inference_sidecar.Metrics.{Metrics}
use distri_inference_sidecar.Batcher.Types.{Config, Request, Delivery, SingleResult}
use distri_inference_sidecar.Batcher.Flush.{Env, reply, cancelled}
use distri_inference_sidecar.Batcher.Answers.{
  take_result, answers, answer, failed, live, abandoned, backend_answer, settle, owed,
}
use distri_inference_sidecar.Batcher.Queue.{drain_error}
use distri_inference_sidecar.Batcher.System.{System, Reach, start}
use distri_inference_sidecar.Batcher.System.History.{flushed, drained, all_owed, Reach-IsExplained}

-- The item for an ID is one of the results, and has the ID.
take_result-found :
    (id : Bytes) (results : List SingleResult) (item : SingleResult)
    → (take_result id results).0 ≡ some item
    → Mem item results × (item.id ≡ id)
unfolding take_result
take_result-found id [] item h = absurd (ground arith)
take_result-found id (res ∷ results) item h = elim (Bool-cases (bytes_eq id res.id)) [
  | inl e ↦
      let same : res ≡ item = ground arith in
      (
        subst (λ x. Mem x (res ∷ results)) same mem-cons_self,
        ap (λ x. x.id) (sym same) ∙ sym ((bytes_eq_iff id res.id).0 e),
      )
  | inr e ↦
      let (m, i) = take_result-found id results item (ground arith) in (mem-cons_of_mem res m, i)
]

take_result-rest :
    (id : Bytes) (results : List SingleResult) → Subset (take_result id results).1 results
unfolding take_result
take_result-rest id [] x m = m
take_result-rest id (res ∷ results) x m = elim (Bool-cases (bytes_eq id res.id)) [
  | inl e ↦ mem-cons_of_mem res (rw e at m)
  | inr e ↦
      Or.elim (Mem-prop {a = x} {l = res ∷ results}) (mem-cons.0 (rw e at m))
        (λ p. mem-cons.1 (∣ inl p ∣₁)) (λ k. mem-cons_of_mem res (take_result-rest id results x k))
]

-- An item of the results with the request's ID and without an error, whose output is delivered on
-- the request's channel.
pub record IsOutput (rs : List Request) (results : List SingleResult) (d : Delivery) : Type 0 where
  pub request : Request
  pub item : SingleResult
  pub asked : Mem request rs
  pub channel : request.result_ch ≡ d.0
  pub among : Mem item results
  pub same_id : item.id ≡ request.id
  pub no_error : item.error ≡ []
  pub output : d.1.output_data ≡ item.output_data

widen :
    {rs qs : List Request} {some_results all : List SingleResult} {d : Delivery}
    → Subset rs qs
    → Subset some_results all
    → IsOutput rs some_results d
    → IsOutput qs all d
widen p q h = record {
  request = h.request;
  item = h.item;
  asked = p h.request h.asked;
  channel = h.channel;
  among = q h.item h.among;
  same_id = h.same_id;
  no_error = h.no_error;
  output = h.output;
}

reply-output :
    (latency : ℕ) (item : SingleResult)
    → (reply latency item).err ≡ none
    → (item.error ≡ []) × ((reply latency item).output_data ≡ item.output_data)
unfolding reply
reply-output latency item h = ground arith

answer-IsOutput :
    (latency : ℕ) (r : Request) (rs : List Request) (results : List SingleResult)
    (item : Option SingleResult)
    → (take_result r.id results).0 ≡ item
    → (answer latency r.id item).err ≡ none
    → IsOutput (r ∷ rs) results (r.result_ch, answer latency r.id item)
answer-IsOutput latency r rs results none e h = absurd (ground arith)
answer-IsOutput latency r rs results (some item) e h =
    let (m, i) = take_result-found r.id results item e in
    let (clean, out) = reply-output latency item h in
    record {
      request = r;
      item = item;
      asked = mem-cons_self;
      channel = refl;
      among = m;
      same_id = i;
      no_error = clean;
      output = out;
    }

answers-IsOutput :
    (latency : ℕ) (rs : List Request) (results : List SingleResult) (d : Delivery)
    → Mem d (answers latency results rs)
    → d.1.err ≡ none
    → ∥ IsOutput rs results d ∥₁
unfolding answers
answers-IsOutput latency [] results d m h = absurd (not-mem-nil m)
answers-IsOutput latency (r ∷ rs) results d m h =
    Or.elim ∥∥₁_prop (mem-cons.0 m)
      (λ e.
        ∣ subst (IsOutput (r ∷ rs) results) (sym e) (
          answer-IsOutput latency r rs results (take_result r.id results).0 refl
            (ap (λ x. x.1.err) (sym e) ∙ h)) ∣₁)
      (λ k.
        ∥∥₁_map (answers-IsOutput latency rs (take_result r.id results).1 d k h)
          (widen (λ x. mem-cons_of_mem r) (take_result-rest r.id results)))

failed-error :
    (e : GoError) (rs : List Request) (d : Delivery) → Mem d (map (failed e) rs) → d.1.err ≢ none
failed-error e [] d m h = not-mem-nil m
failed-error e (r ∷ rs) d m h =
    Or.elim ⊥_prop (mem-cons.0 m) (λ p. absurd (ground (arith, ap (λ x. x.1.err) p)))
      (λ k. failed-error e rs d k h)

abandoned-error :
    (env : Env) (rs : List Request) (d : Delivery) → Mem d (abandoned env rs) → d.1.err ≢ none
unfolding abandoned
abandoned-error env [] d m h = not-mem-nil m
abandoned-error env (r ∷ rs) d m h = elim (Option-cases (cancelled env r)) [
  | inl e ↦ abandoned-error env rs d (rw (e, abandoned) at m) h
  | inr (x, e) ↦
      Or.elim ⊥_prop (mem-cons.0 (rw (e, abandoned) at m))
        (λ p. absurd (ground (arith, ap (λ y. y.1.err) p))) (λ k. abandoned-error env rs d k h)
]

-- The flush that a successful result comes from, and its backend's answer.
pub record IsFromBackend (cfg : Config) (fs : List (Env × List Request)) (d : Delivery)
    : Type 0 where
  pub env : Env
  pub batch : List Request
  pub was_flushed : Mem (env, batch) fs
  pub results : List SingleResult
  pub answered : backend_answer env cfg (live env batch) ≡ ok results
  pub result : IsOutput (live env batch) results d

owed-IsFromBackend :
    (cfg : Config) (fs : List (Env × List Request)) (env : Env) (batch : List Request)
    (d : Delivery)
    → Mem (env, batch) fs
    → Mem d (owed env cfg batch)
    → d.1.err ≡ none
    → ∥ IsFromBackend cfg fs d ∥₁
unfolding owed
owed-IsFromBackend cfg fs env batch d f m h =
    Or.elim ∥∥₁_prop (mem-append.0 m) (λ a. absurd (abandoned-error env batch d a h))
      (λ k. from (backend_answer env cfg (live env batch)) refl k)
  where
    from :
        (a : Fallible (List SingleResult))
        → backend_answer env cfg (live env batch) ≡ a
        → Mem d (settle env.latency_ms (live env batch) a)
        → ∥ IsFromBackend cfg fs d ∥₁
    from (err e) p k = absurd (failed-error e (live env batch) d k h)
    from (ok results) p k =
        ∥∥₁_map (answers-IsOutput env.latency_ms (live env batch) results d k h) (λ o. record {
          env = env;
          batch = batch;
          was_flushed = f;
          results = results;
          answered = p;
          result = o;
        })

all_owed-IsFromBackend :
    (cfg : Config) (all fs : List (Env × List Request)) (d : Delivery)
    → Subset fs all
    → Mem d (all_owed cfg fs)
    → d.1.err ≡ none
    → ∥ IsFromBackend cfg all d ∥₁
unfolding flatten
all_owed-IsFromBackend cfg all [] d sub m h = absurd (not-mem-nil m)
all_owed-IsFromBackend cfg all (f ∷ fs) d sub m h =
    Or.elim ∥∥₁_prop (mem-append.0 m)
      (λ k. owed-IsFromBackend cfg all f.0 f.1 d (sub f mem-cons_self) k h)
      (λ k. all_owed-IsFromBackend cfg all fs d (λ x i. sub x (mem-cons_of_mem f i)) k h)

-- In every run from Start, a result that is sent without an error comes from a flush of the run:
-- from an item of the backend's answer to it that has no error and the ID of a request of its
-- batch, on whose channel the item's output is sent, and whose context was not done.
pub Reach-IsFromBackend :
    (cfg : Config) (m : Metrics) {s : System} (reach : Reach (start cfg m) s) (d : Delivery)
    → Mem d s.b.out.sent
    → d.1.err ≡ none
    → ∥ IsFromBackend cfg (flushed reach) d ∥₁
Reach-IsFromBackend cfg m reach d i h =
    Or.elim ∥∥₁_prop (mem-append.0 ((Perm.mem_iff (Reach-IsExplained cfg m reach).sent).0 i))
      (λ k. all_owed-IsFromBackend cfg (flushed reach) (flushed reach) d (λ x j. j) k h)
      (λ k. absurd (failed-error drain_error (drained reach) d k h))
