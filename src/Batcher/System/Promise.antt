-- ===== src/Batcher/System/Promise.antt =====
-- What the batcher promises, with no queue, no loop and no goroutines: until it is closed it accepts
-- requests; it settles a batch of those that it owes a result, of the size of one flush at most, by what one
-- flush owes them, or, once closed,
-- drops one with the error of the drain.
pub mod Keeping
use mathlib.Mathlib.Data.Multiset.Defs.{Multiset, of_list}
use distri_inference_sidecar.Prelude.{ℕ, ◌≡◌, ◌≤◌, Bool, true, false, List, [], ◌∷◌, ◌++◌, length}
use distri_inference_sidecar.Batcher.Types.{Config, Request, Delivery}
use distri_inference_sidecar.Batcher.Flush.{Env}
use distri_inference_sidecar.Batcher.Answers.{failed, owed}
use distri_inference_sidecar.Batcher.Queue.{drain_error}
use distri_inference_sidecar.Batcher.System.{System, pending}
use distri_inference_sidecar.Batcher.System.Safety.{batch_limit}

-- The requests accepted, in their order; those of them that have no result yet, and the results
-- given, in no order.
pub record Debts : Type 0 where
  pub accepted : List Request
  pub owing : Multiset Request
  pub given : Multiset Delivery
  pub closed : Bool

abbrev pub debts_of : List Request → List Request → List Delivery → Bool → Debts
debts_of accepted owing given closed = record {
  accepted = accepted;
  owing = of_list owing;
  given = of_list given;
  closed = closed;
}

abbrev pub no_debts : Debts
no_debts = debts_of [] [] [] false

pub data Act (cfg : Config) : Debts → Debts → Type 0 where
  accepts :
      (r : Request) (accepted owing : List Request) (given : List Delivery)
      → Act cfg
          (debts_of accepted owing given false)
          (debts_of (accepted ++ r ∷ []) (r ∷ owing) given false)
  settles :
      (env : Env) (batch accepted rest : List Request) (given : List Delivery) (closed : Bool)
      → 1 ≤ length batch
      → length batch ≤ batch_limit cfg
      → Act cfg
          (debts_of accepted (batch ++ rest) given closed)
          (debts_of accepted rest (given ++ owed env cfg batch) closed)
  closes :
      (accepted owing : List Request) (given : List Delivery) (closed : Bool)
      → Act cfg (debts_of accepted owing given closed) (debts_of accepted owing given true)
  drops :
      (r : Request) (accepted rest : List Request) (given : List Delivery)
      → Act cfg
          (debts_of accepted (r ∷ rest) given true)
          (debts_of accepted rest (given ++ failed drain_error r ∷ []) true)

-- Acts one after the other.
pub data Acts (cfg : Config) (a : Debts) : Debts → Type 0 where
  at_rest : {b : Debts} → a ≡ b → Acts cfg a b
  then_act : {b c d : Debts} → Acts cfg a b → Act cfg b c → c ≡ d → Acts cfg a d

-- What a state of the batcher owes and has given.
abbrev pub debts : System → Debts
debts s = debts_of s.accepted (pending s) s.b.out.sent s.b.stopped
