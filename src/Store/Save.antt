-- ===== src/Store/Save.antt =====
-- `_save`: the queue file is written to a temporary file, which then takes its place.
use solmesh.Prelude.{
  ◌≡◌, refl, ◌⊎◌, inl, inr, Bool, true, false, List, [], ◌∷◌, ◌||◌, ℕ, zero, suc, take, Option,
  none, some, Result, ok, err, other_error, if◌then◌else◌, arith,
}
use solmesh.Store.{Intent, QueueFile, saved}

-- The directory of the queue: the file, and a temporary file, which may be cut off.
pub data Draft : Type 0 where
  partial : Draft
  written : List Intent → Draft

pub record Disk : Type 0 where
  pub queue_file : QueueFile
  pub tmp : Option Draft

-- Which of the calls raise.
pub record Faults : Type 0 where
  pub mkstemp_fails : Bool
  pub dump_fails : Bool
  pub chmod_fails : Bool
  pub replace_fails : Bool
  pub unlink_fails : Bool

-- The `except` clause: the temporary file is removed, if that works, and the exception goes on.
abbrev pub clean_up : Faults → Disk → Result (Unit {0}) × Disk
clean_up f disk = (err other_error, if f.unlink_fails then disk else record disk { tmp = none })

-- `os.replace`
abbrev pub replace : Disk → Disk
replace disk = elim disk.tmp [
  | none ↦ disk
  | some draft ↦ elim draft [
    | partial ↦ record disk { queue_file = QueueFile.corrupt; tmp = none }
    | written intents ↦ record { queue_file = saved intents; tmp = none }
  ]
]

-- What each call of the `try` does, with whether it raises. One that raises leaves the disk as it
-- was: a temporary file that `json.dump` did not finish is cut off, as the empty one is.
abbrev pub Call : Type 0
Call = Bool × (Disk → Disk)

abbrev pub calls : Faults → List Intent → List Call
calls f intents =
    (f.dump_fails, λ disk. record disk { tmp = some (written intents) })
    ∷ (f.chmod_fails, λ disk. disk)
    ∷ (f.replace_fails, replace)
    ∷ []

-- Whether no call raised, and the disk at that point.
pub run : List Call → Disk → Bool × Disk
run [] disk = (true, disk)
run ((true, call) ∷ rest) disk = (false, disk)
run ((false, call) ∷ rest) disk = run rest (call disk)

abbrev pub mkstemp : Disk → Disk
mkstemp disk = record disk { tmp = some partial }

unfoldable pub save : Faults → List Intent → Disk → Result (Unit {0}) × Disk
unfolding run
save f intents disk =
    let (done, disk') = run (calls f intents) (mkstemp disk) in
    if f.mkstemp_fails
    then (err other_error, disk)
    else if done
    then (ok tt, disk')
    else clean_up f disk'

-- What a crash behind a number of calls leaves.
unfoldable pub save_cut_off : Faults → List Intent → ℕ → Disk → Disk
unfolding run
save_cut_off f intents count disk = (run (take count (calls f intents)) (mkstemp disk)).1

-- The queue file is the one before or the whole new one.
abbrev pub OldOrNew : QueueFile → List Intent → Disk → Type 0
OldOrNew old intents disk = (disk.queue_file ≡ old) ⊎ (disk.queue_file ≡ saved intents)

cut_off-OldOrNew :
    (intents : List Intent) (file : QueueFile) (count : ℕ)
    (dump_fails chmod_fails replace_fails : Bool)
    → let todo : List Call =
        (dump_fails, λ disk. record disk { tmp = some (written intents) })
        ∷ (chmod_fails, λ disk. disk)
        ∷ (replace_fails, replace)
        ∷ [] in
      OldOrNew file intents
        (run (take count todo) (mkstemp (record { queue_file = file; tmp = none }))).1
unfolding run
cut_off-OldOrNew intents file zero d c r = inl refl
cut_off-OldOrNew intents file (suc n) true c r = inl refl
cut_off-OldOrNew intents file (suc zero) false c r = inl refl
cut_off-OldOrNew intents file (suc (suc n)) false true r = inl refl
cut_off-OldOrNew intents file (suc (suc zero)) false false r = inl refl
cut_off-OldOrNew intents file (suc (suc (suc n))) false false true = inl refl
cut_off-OldOrNew intents file (suc (suc (suc zero))) false false false = inr refl
cut_off-OldOrNew intents file (suc (suc (suc (suc n)))) false false false = inr refl

-- Whichever calls fail, `_save` either ends normally, with the new queue in the file, or raises and
-- leaves the file as it was; it raises exactly if a call up to the replacement fails, and it leaves a
-- temporary file only if the removal fails. Where it is cut off between two calls, the file holds the
-- old queue or the whole new one.
pub save-atomic :
    (f : Faults) (intents : List Intent) (file : QueueFile) (count : ℕ)
    → let disk : Disk = record { queue_file = file; tmp = none } in
      let (r, disk') = save f intents disk in
      let fails = f.mkstemp_fails || (f.dump_fails || (f.chmod_fails || f.replace_fails)) in
      (r ≡ (if fails then err other_error else ok tt))
      × (disk'.queue_file ≡ (if fails then file else saved intents))
      × ((f.unlink_fails ≡ true) ⊎ (disk'.tmp ≡ none))
      × OldOrNew file intents (save_cut_off f intents count disk)
unfolding save save_cut_off
save-atomic f intents file count = (
  ground arith,
  ground arith,
  ground arith,
  cut_off-OldOrNew intents file count f.dump_fails f.chmod_fails f.replace_fails,
)
