-- ===== src/Store/Tests.antt =====
-- The queue's theorems at a concrete file.
use mathlib.Core.List.{Perm}
use solmesh.Prelude.{
  ◌⊎◌, other_error, ◌≡◌, refl, true, false, [], ◌∷◌, none, some, err, any, keep_if,
}
use solmesh.Prelude.Eq.{string_eq}
use solmesh.Store.{
  pending, sending, sent, failed, Intent, QueueFile, saved, load, list_intents, get, recover_intent,
  recover_sending, update_status, increment_attempts, pending_intents,
}
use solmesh.Store.{missing}
use solmesh.Store.Save.{Faults, Disk, save, save_cut_off, OldOrNew, save-atomic}
use solmesh.Store.Queue.{get-update_status}
use solmesh.Store.Pending.{OldestFirst, made_at, pending_intents_lem}
use solmesh.Store.Recovery.{is_sending, recover_sending_lem}

abbrev lunch : Intent
lunch = record {
  id = "lunch";
  mode = 3;
  status = pending;
  created_at = 20;
  updated_at = 20;
  wallet_name = "main";
  recipient = "Bob";
  amount = 5;
  token_mint = none;
  token_decimals = 9;
  attempts = 9;
  max_attempts = 10;
  last_error = none;
  result_tx_hash = none;
}

abbrev rent : Intent
rent = record lunch { id = "rent"; recipient = "Carol"; created_at = 10; status = sending }

abbrev queue : QueueFile
queue = saved (lunch ∷ rent ∷ [])

-- The tenth attempt fails an intent.
tenth_attempt :
    get "lunch" (increment_attempts 30 "lunch" queue).1
    ≡ some (record lunch { attempts = 10; updated_at = 30; status = failed })
unfolding increment_attempts get
tenth_attempt = refl

get-update_status_example :
    (get "rent" (update_status 30 "rent" sent none (some (1 ∷ [])) queue).1
      ≡ some (record rent { status = sent; updated_at = 30; result_tx_hash = some (1 ∷ []) }))
    × ((update_status 30 "rent" sent none (some (1 ∷ [])) queue).0 ≡ true)
unfolding get
get-update_status_example = get-update_status 30 "rent" "rent" sent none (some (1 ∷ [])) queue

-- The same payment under another id.
abbrev again : Intent
again = record lunch { id = "again" }

pending_intents_lem_example :
    Perm (pending_intents queue) (list_intents (some pending) queue)
    × OldestFirst (pending_intents queue)
    × (keep_if (made_at 20) (pending_intents queue)
        ≡ keep_if (made_at 20) (list_intents (some pending) queue))
pending_intents_lem_example = pending_intents_lem 20 queue

recover_sending_lem_example :
    (any is_sending (load (recover_sending 30 queue)) ≡ false)
    × (get "rent" (recover_sending 30 queue)
        ≡ some (record rent { status = pending; updated_at = 30 }))
    × (recover_sending 40 (recover_sending 30 queue) ≡ recover_sending 30 queue)
unfolding get recover_intent
recover_sending_lem_example = recover_sending_lem 30 40 "rent" queue

-- A save whose replacement fails.
abbrev no_replacement : Faults
no_replacement = record {
  mkstemp_fails = false;
  dump_fails = false;
  chmod_fails = false;
  replace_fails = true;
  unlink_fails = false;
}

save-atomic_example :
    let disk : Disk = record { queue_file = missing; tmp = none } in
    let (r, disk') = save no_replacement [] disk in
    (r ≡ err other_error)
    × (disk'.queue_file ≡ missing)
    × ((false ≡ true) ⊎ (disk'.tmp ≡ none))
    × OldOrNew missing [] (save_cut_off no_replacement [] 1 disk)
save-atomic_example = save-atomic no_replacement [] missing 1
