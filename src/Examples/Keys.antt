-- ===== src/Examples/Keys.antt =====
-- Tests on keys and their deadlines (src/storage/memory_store.cpp).
use gate_keeper.Base.{
  pos, negsuc, ◌+◌, ◌-◌, ◌/◌, ◌≡◌, refl, ◌∙◌, true, ◌&&◌, none, some, Bytes, same, text, arith, ltb,
  ◌==◌, if◌then◌else◌,
}
use gate_keeper.Examples.{tables, hashing, user, entry_of, shard_of, live-shard_of}
use gate_keeper.Tables.{is_some}
use gate_keeper.Storage.Entry.{Reservation, if_absent, past}
use gate_keeper.Storage.Keys
use gate_keeper.Storage.Keys.{expiry}
use gate_keeper.Storage.Purge
use gate_keeper.Storage.Purge.Unseen.{NoRefund, live-purge_expired}
use gate_keeper.Storage.Shard.{StorageShard}
use gate_keeper.Storage.Shard.Live.{live}
use gate_keeper.Storage.Store
use gate_keeper.Storage.Store.{MemoryStore, new_store, shard_index, num_shards}
use gate_keeper.Storage.Store.Contents.{admits_value, get-set, get-del}
use gate_keeper.Storage.Store.Routing.{IsStore, new_store-IsStore, on_shard-IsStore}
use gate_keeper.Storage.Ttl
use gate_keeper.Storage.Ttl.Deadlines.{expired_to, expire-live, pttl-expire}

abbrev another : Bytes
another = text "user:2"

abbrev plain : StorageShard
plain = shard_of (entry_of (text "on"))

get-set_example :
    ((Store.set user (text "on") if_absent 500 1000 new_store).0
      ≡ admits_value if_absent (Store.get user 1000 new_store).0)
    × ((Store.get user 1200 (Store.set user (text "on") if_absent 500 1000 new_store).1).0 ≡ (
        if same user user && admits_value if_absent (Store.get user 1000 new_store).0
        then (if past (expiry 500 1000) 1200 then none else some (text "on"))
        else (Store.get user 1200 new_store).0))
get-set_example =
    get-set user (text "on") user if_absent 500 1000 1200 new_store new_store-IsStore (omega arith)

get-del_example :
    (Store.get another 1200 (Store.del user new_store).1).0
    ≡ (if same user another then none else (Store.get another 1200 new_store).0)
get-del_example = get-del user another 1200 new_store new_store-IsStore

on_shard-IsStore_example :
    ((Store.on_shard user (Keys.del user) new_store).0
      ≡ (Keys.del user (Store.get_shard user new_store)).0)
    × IsStore (Store.on_shard user (Keys.del user) new_store).1
    × (Store.get_shard another (Store.on_shard user (Keys.del user) new_store).1 ≡ (
        if shard_index user == shard_index another
        then (Keys.del user (Store.get_shard user new_store)).1
        else Store.get_shard another new_store))
on_shard-IsStore_example = on_shard-IsStore user another (Keys.del user) new_store new_store-IsStore

expire-live_example :
    ((Ttl.expire user 500 1000 plain).0 ≡ is_some (live user 1000 plain))
    × (live user 1200 (Ttl.expire user 500 1000 plain).1 ≡ (
        if same user user
        then expired_to 500 1000 1200 (live user 1000 plain)
        else live user 1200 plain))
expire-live_example = expire-live user user 500 1000 1200 plain (omega arith)

expire_succeeds : (Ttl.expire user 500 1000 plain).0 ≡ true
expire_succeeds =
    (expire-live user user 500 1000 1200 plain (omega arith)).0
    ∙ rw (live-shard_of 1000 (entry_of (text "on"))) refl

pttl-expire_example :
    ((Ttl.pttl user 1200 (Ttl.expire user 500 1000 plain).1).0
      ≡ (if ltb 1200 (1000 + 500) then pos (1000 + 500 - 1200) else negsuc 1))
    × ((Ttl.ttl user 1200 (Ttl.expire user 500 1000 plain).1).0
        ≡ (if ltb 1200 (1000 + 500) then pos ((1000 + 500 - 1200 + 999) / 1000) else negsuc 1))
pttl-expire_example =
    pttl-expire user 500 1000 1200 plain (omega arith) (omega arith) (omega arith) expire_succeeds

no_refund : NoRefund user 1000 plain
no_refund = λ id res e due. absurd (ground (arith, e, tables.find-empty {V = Reservation} id))

live-purge_expired_example :
    live user 1200 (Purge.purge_expired 20 1000 plain).1 ≡ live user 1200 plain
live-purge_expired_example = live-purge_expired user 20 1000 1200 plain (omega arith) no_refund
