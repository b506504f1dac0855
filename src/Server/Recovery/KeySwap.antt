-- ===== src/Server/Recovery/KeySwap.antt =====
-- Which calls touch the device keys, and which leave the requests alone.
use mpc_ext.Base.{
  ◌≡◌, refl, ◌≢◌, Bool, true, some, arith, ◌==◌, is_some, find_where, update_where, List, [], ◌∷◌,
}
use mathlib.Core.Option
use mpc_ext.Server.Types.{Text, Blob, Db, DeviceKey}
use mpc_ext.Server.Recovery.{device_key, replace_device_key, take_over}

pub requests-replace_device_key :
    (w : Text) (key : Blob) (db : Db)
    → (replace_device_key w key db).recovery_requests ≡ db.recovery_requests
unfolding replace_device_key
requests-replace_device_key w key db = ground arith

abbrev set_key : Blob → DeviceKey → DeviceKey
set_key key k = record k { public_key = key }

abbrev of_wallet : Text → DeviceKey → Bool
of_wallet w k = k.wallet_id == w

find-set_key_same :
    (w : Text) (key : Blob) (ks : List DeviceKey)
    → is_some (find_where (of_wallet w) ks) ≡ true
    → Option.map
        (λ k. k.public_key)
        (find_where (of_wallet w) (update_where (of_wallet w) (set_key key) ks))
      ≡ some key
unfolding find_where update_where
find-set_key_same w key [] h = cc
find-set_key_same w key (k ∷ ks) h = ground (arith, find-set_key_same w key ks)

find-set_key_other :
    (v w : Text) (key : Blob) (ks : List DeviceKey)
    → v ≢ w
    → find_where (of_wallet v) (update_where (of_wallet w) (set_key key) ks)
      ≡ find_where (of_wallet v) ks
unfolding find_where update_where
find-set_key_other v w key [] h = refl
find-set_key_other v w key (k ∷ ks) h = ground (arith, find-set_key_other v w key ks h)

pub device_key-replace_device_key :
    (w : Text) (key : Blob) (db : Db) → device_key w (replace_device_key w key db) ≡ some key
unfolding device_key replace_device_key find_where
device_key-replace_device_key w key db = ground (arith, find-set_key_same w key db.device_keys)

pub device_key-replace_device_key_other :
    (v w : Text) (key : Blob) (db : Db)
    → v ≢ w
    → device_key v (replace_device_key w key db) ≡ device_key v db
unfolding device_key replace_device_key find_where
device_key-replace_device_key_other v w key db h =
    ground (arith, find-set_key_other v w key db.device_keys h)

pub device_key-take_over :
    (rid w : Text) (key : Blob) (db : Db) → device_key w (take_over rid w key db) ≡ some key
unfolding take_over device_key
device_key-take_over rid w key db = unfold device_key in device_key-replace_device_key w key db

pub device_key-take_over_other :
    (v rid w : Text) (key : Blob) (db : Db)
    → v ≢ w
    → device_key v (take_over rid w key db) ≡ device_key v db
unfolding take_over device_key
device_key-take_over_other v rid w key db h = device_key-replace_device_key_other v w key db h
