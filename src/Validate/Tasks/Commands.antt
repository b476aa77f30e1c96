-- ===== src/Validate/Tasks/Commands.antt =====
-- What `musts run` may later execute: no command of an extension survives the ingestion.
use musts.Base.{◌≡◌, refl, false, none, List, [], ◌∷◌, map}
use musts.Base.Order.{nat_ord, list_ord}
use musts.Base.Text.{Text}
use musts.Base.Lists.{All, All-append}
use musts.Base.Map.{BTreeMap}
use musts.Protocol.{Task, ResolveResponse}
use musts.Database.{Serde}
use musts.Validate.Tasks.{
  PreparedCheck, PersistedTask, Collected, by_id, strip_command, persisted, ingest_resolve_response,
}

-- a task without a command, and a stored payload that is one
abbrev pub HasNoCommand : Task → Type 0
HasNoCommand t = t.command ≡ none

abbrev pub HoldsNoCommand : Serde → PersistedTask → Type 0
HoldsNoCommand serde p = (t : Task) × (p.payload_json ≡ serde.task.encode t) × HasNoCommand t

stripped-HasNoCommand : (ts : List Task) → All HasNoCommand (map (strip_command false) ts)
unfolding strip_command
stripped-HasNoCommand [] = tt
stripped-HasNoCommand (t ∷ ts) = (refl, stripped-HasNoCommand ts)

module _ (digest : Text → Text) (serde : Serde) where
  persisted-HoldsNoCommand :
      (capability : Text) (checks : BTreeMap Text PreparedCheck) (ts : List Task)
      → All HasNoCommand ts
      → All (HoldsNoCommand serde) (map (persisted digest serde capability checks) ts)
  unfolding persisted
  persisted-HoldsNoCommand capability checks [] h = tt
  persisted-HoldsNoCommand capability checks (t ∷ ts) h =
      ((t, refl, h.0), persisted-HoldsNoCommand capability checks ts h.1)

  -- Where the collected tasks and the payloads to be stored hold no command, they hold none after the
  -- answer of an implementor that is not trusted, whatever it answers.
  pub ingest-HasNoCommand :
      (response : ResolveResponse) (capability : Text) (dirty : List PreparedCheck) (c : Collected)
      → All HasNoCommand c.tasks
      → All (HoldsNoCommand serde) c.tasks_to_persist
      → All HasNoCommand
          (ingest_resolve_response digest serde response capability false dirty c).tasks
        × All
            (HoldsNoCommand serde)
            (ingest_resolve_response digest serde response capability false dirty
              c).tasks_to_persist
  unfolding ingest_resolve_response
  ingest-HasNoCommand response capability dirty c h k =
      let stripped = stripped-HasNoCommand response.tasks in
      (
        All-append HasNoCommand c.tasks (map (strip_command false) response.tasks) h stripped,
        All-append (HoldsNoCommand serde) c.tasks_to_persist
            (map (persisted digest serde capability (by_id dirty))
              (map (strip_command false) response.tasks))
            k
            (persisted-HoldsNoCommand capability (by_id dirty)
              (map (strip_command false) response.tasks) stripped),
      )
