-- ===== src/Memory/Lifecycle/Steps.antt =====
-- What holds before the transaction of a change of status and after its work holds after the whole.
use code_butler.Prelude.{not, ◌&&◌, is_some, inl, inr, Option-cases}
use code_butler.Exec.{replacement_not_allowed}
use code_butler.Exec.Rules.{throw_if_after, rolled_back_state}
use code_butler.Storage.{Env, Db, LifecycleStatus, superseded, with_transaction}
use code_butler.Storage.Events.{status_eq}
use code_butler.Memory.Lifecycle.{StatusInput, lifecycle_status, apply_status, update_memory_status}

module _ (env : Env) where
  -- What holds before the transaction and after its work holds after the whole.
  pub update_memory_status_state :
      (P : Db → Type 0) (input : StatusInput) (db : Db)
      → P db
      → ((status : LifecycleStatus) → P (apply_status env input status db).1)
      → P (update_memory_status env input db).1
  unfolding update_memory_status
  update_memory_status_state P input db p k = elim (Option-cases (lifecycle_status input.status)) [
    | inl e ↦ rw (e, update_memory_status) p
    | inr (status, e) ↦
        rw (e, update_memory_status)
          (throw_if_after P
            (not (status_eq status superseded) && is_some input.replacement_memory_id)
            replacement_not_allowed (with_transaction (apply_status env input status)) db p
            (rolled_back_state P (apply_status env input status) db p (k status)))
  ]
