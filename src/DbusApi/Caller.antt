-- ===== src/DbusApi/Caller.antt =====
-- Who may use the interface: the requests as one type, and the answer to a stranger.
use kpxcd.Prelude.{ℕ, Bool, true, false, some, Bytes, ◌≡◌, ◌≢◌, refl, arith, Option-cases, inl, inr}
use kpxcd.Prelude.Results.{err}
use kpxcd.DbusApi.{
  not_authorized, Variant, State, Environment, Answer, authorize, authorized, list_databases,
  unlock_database, lock_database, lock_all_databases, get_entry, search_entries, unimplemented,
  ssh_list_keys, ssh_add_key, ssh_export_key, ssh_test_sign, ssh_remove_key,
}
use kpxcd.DbusApi.Scan.{ssh_scan_database}

-- The methods that ask for authorization, with their arguments, but for making and importing keys.
pub data Request : Type 0 where
  list lock_all totp password passphrase create_passkey assert_passkey : Request
  unlock : Bytes → Bytes → Variant → Request
  lock : Bytes → Request
  entry search : Bytes → Bytes → Request
  list_keys export_key remove_key scan_keys : Bytes → Request
  add_key : Bytes → Bytes → ℕ → Bool → Request
  test_sign : Bytes → Bytes → Request

module _ {S : Type 0} (env : Environment S) where
  unfoldable pub handle : Bytes → Request → State S → Answer env
  handle sender list st = list_databases env sender st
  handle sender lock_all st = lock_all_databases env sender st
  handle sender totp st = unimplemented env sender st
  handle sender password st = unimplemented env sender st
  handle sender passphrase st = unimplemented env sender st
  handle sender create_passkey st = unimplemented env sender st
  handle sender assert_passkey st = unimplemented env sender st
  handle sender (unlock path type value) st = unlock_database env sender path type value st
  handle sender (lock uuid) st = lock_database env sender uuid st
  handle sender (entry uuid path) st = get_entry env sender uuid path st
  handle sender (search uuid query) st = search_entries env sender uuid query st
  handle sender (list_keys uuid) st = ssh_list_keys env sender uuid st
  handle sender (export_key fp) st = ssh_export_key env sender fp st
  handle sender (remove_key fp) st = ssh_remove_key env sender fp st
  handle sender (scan_keys uuid) st = ssh_scan_database env sender uuid st
  handle sender (add_key uuid path lifetime confirm) st =
      ssh_add_key env sender uuid path lifetime confirm st
  handle sender (test_sign fp bytes) st = ssh_test_sign env sender fp bytes st

  refused :
      (sender : Bytes) (st : State S) (answer : Answer env)
      → authorize env sender ≡ false
      → authorized env sender st answer ≡ (st, err not_authorized)
  unfolding authorized
  refused sender st answer stranger = rw stranger refl

  authorize-stranger :
      (sender : Bytes)
      → env.connected ≡ true
      → env.get_connection_unix_user sender ≢ some env.own_uid
      → authorize env sender ≡ false
  unfolding authorize
  authorize-stranger sender online other =
      elim (Option-cases (env.get_connection_unix_user sender)) [
        | inl unknown ↦ rw (authorize, online, unknown) refl
        | inr (uid, known) ↦ ground (arith, other)
      ]

-- On a bus, every request of a caller whom the bus does not know as a process of the daemon's own
-- user is refused, whichever of these methods it calls, and neither the pool nor the SSH agent changes.
pub handle-stranger :
    {S : Type 0} (env : Environment S) (sender : Bytes) (request : Request) (st : State S)
    → env.connected ≡ true
    → env.get_connection_unix_user sender ≢ some env.own_uid
    → handle env sender request st ≡ (st, err not_authorized)
unfolding handle list_databases lock_all_databases unimplemented unlock_database lock_database
    get_entry search_entries ssh_list_keys ssh_add_key ssh_export_key ssh_test_sign ssh_remove_key
    ssh_scan_database
handle-stranger env sender request st online other = by_request request
  where
    no_entry : authorize env sender ≡ false
    no_entry = authorize-stranger env sender online other

    by_request : (r : Request) → handle env sender r st ≡ (st, err not_authorized)
    by_request list = refused env sender st _ no_entry
    by_request lock_all = refused env sender st _ no_entry
    by_request totp = refused env sender st _ no_entry
    by_request password = refused env sender st _ no_entry
    by_request passphrase = refused env sender st _ no_entry
    by_request create_passkey = refused env sender st _ no_entry
    by_request assert_passkey = refused env sender st _ no_entry
    by_request (unlock path type value) = refused env sender st _ no_entry
    by_request (lock uuid) = refused env sender st _ no_entry
    by_request (entry uuid path) = refused env sender st _ no_entry
    by_request (search uuid query) = refused env sender st _ no_entry
    by_request (list_keys uuid) = refused env sender st _ no_entry
    by_request (export_key fp) = refused env sender st _ no_entry
    by_request (remove_key fp) = refused env sender st _ no_entry
    by_request (scan_keys uuid) = refused env sender st _ no_entry
    by_request (add_key uuid path lifetime confirm) = refused env sender st _ no_entry
    by_request (test_sign fp bytes) = refused env sender st _ no_entry
