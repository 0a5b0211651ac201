-- ===== src/Immune/Recovery.antt =====
-- kernel/immune/src/recovery.ts: checkpoints, and what `restore` reports of them.
use chat_ai.Base.{
  ℕ, String, Bool, true, false, Option, none, some, ◌≡◌, ◌↔◌, refl, sym, ◌∙◌, ap, arith,
  if◌then◌else◌, ◌<>◌, ◌==◌, leb, str_eq, eq_iff, eq_refl,
}
use chat_ai.Base.Maps
use chat_ai.Base.Maps.{Map, get, set, get-set}
use chat_ai.Orchestrator.Json.{Fields, Json, obj}

-- `CheckpointKind`.
pub data CheckpointKind : Type 0 where
  migration deployment mass_file_change dependency_upgrade configuration_mutation custom :
      CheckpointKind

-- `Checkpoint`.
pub record Checkpoint : Type 0 where
  pub id : String
  pub label : String
  pub kind : CheckpointKind
  pub created_at : String
  pub state : Fields
  pub hash : String

-- `RecoveryResult`.
pub record RecoveryResult : Type 0 where
  pub level : ℕ
  pub applied : Bool
  pub restored : Bool
  pub verified : Bool
  pub text : String

-- The label of a level in `RECOVERY_LEVELS`.
unfoldable pub level_label : ℕ → String
level_label n =
    if n == 0
    then "retry"
    else if n == 1
    then "restart component"
    else if n == 2
    then "rollback transaction"
    else if n == 3
    then "restore checkpoint"
    else if n == 4
    then "isolate environment"
    else if n == 5
    then "require human approval"
    else "unknown"

-- `attempt`; an empty text is no text.
unfoldable pub attempt : ℕ → String → RecoveryResult
unfolding level_label
attempt level text =
    let label = level_label level in
    let auto = leb level 3 in
    record {
      level = level;
      applied = auto;
      restored = level == 3;
      verified = false;
      text =
          if str_eq text ""
          then label <> (if auto then " (automatic)" else " (requires external action)")
          else text;
    }

module _ (sha256 : String → String) (print : Json → String) where
  -- `stateHash`.
  unfoldable pub state_hash : Fields → String
  state_hash state = sha256 (print (obj state))

  -- `checkpoint`.
  unfoldable pub checkpoint :
      String
      → String
      → String
      → CheckpointKind
      → Fields
      → Map Checkpoint
      → Checkpoint × Map Checkpoint
  checkpoint id now label kind state checkpoints =
      let c : Checkpoint = record {
        id = id;
        label = label;
        kind = kind;
        created_at = now;
        state = state;
        hash = state_hash state;
      } in
      (c, Maps.set id c checkpoints)

  unfoldable pub is_verified : Checkpoint → Option Fields → Bool
  is_verified c none = true
  is_verified c (some expected) = str_eq (state_hash expected) c.hash

  -- `restore`.
  unfoldable pub restore : String → Option Fields → Map Checkpoint → RecoveryResult
  unfolding is_verified
  restore id expected checkpoints = elim (Maps.get id checkpoints) [
    | none ↦ record {
      level = 3;
      applied = false;
      restored = false;
      verified = false;
      text = "unknown checkpoint '" <> (id <> "'");
    }
    | some c ↦ record {
      level = 3;
      applied = true;
      restored = true;
      verified = is_verified c expected;
      text =
          if is_verified c expected
          then "restored '" <> (c.label <> "' and verified")
          else "restored '" <> (c.label <> "' but verification failed");
    }
  ]

  restore_found :
      (id : String) (expected : Option Fields) (m : Map Checkpoint) (c : Checkpoint)
      → get id m ≡ some c
      → (restore id expected m).verified ≡ is_verified c expected
  unfolding restore
  restore_found id expected m c h = rw (h, restore) refl

  restore_same :
      (id now label : String) (kind : CheckpointKind) (state expected : Fields) (m : Map Checkpoint)
      → (restore id (some expected) (checkpoint id now label kind state m).1).verified
        ≡ str_eq (state_hash expected) (state_hash state)
  unfolding checkpoint is_verified
  restore_same id now label kind state expected m =
      restore_found id (some expected) (checkpoint id now label kind state m).1
        (checkpoint id now label kind state m).0
        (get-set id id (checkpoint id now label kind state m).0 m ∙ ground (arith, eq_refl id))

  -- With a digest that tells texts apart, a restore of a checkpoint that was just made verifies
  -- against exactly the states that `JSON.stringify` writes as it writes the one that was kept.
  pub restore-checkpoint :
      (id now label : String) (kind : CheckpointKind) (state expected : Fields)
      (checkpoints : Map Checkpoint)
      → ((a b : String) → sha256 a ≡ sha256 b → a ≡ b)
      → ((restore id (some expected) (checkpoint id now label kind state checkpoints).1).verified
          ≡ true)
        ↔ (print (obj expected) ≡ print (obj state))
  unfolding state_hash
  restore-checkpoint id now label kind state expected checkpoints inj =
      let same = restore_same id now label kind state expected checkpoints in
      let hashes = eq_iff (state_hash expected) (state_hash state) in
      (
        (λ h. inj (print (obj expected)) (print (obj state)) (hashes.0 (sym same ∙ h))),
        (λ e. same ∙ hashes.1 (ap sha256 e)),
      )
