-- ===== src/Map/Tests.antt =====
-- The maps on small inputs.
use dshuffle.Prelude.{ℕ, ◌≡◌, refl, arith, none, true}
use dshuffle.Prelude.Outcome.{ok, ◌>>=◌}
use dshuffle.Map.Chain.{search}
use dshuffle.Map.Host
use dshuffle.Map.Host.{
  MapImpl, bidirect, normal, init, lookup_v, lookup_k, insert_kv, insert_vk, link_v,
}
use dshuffle.Map.HostLaws.{
  Inserts, IsValid, view, view_k, flagged, added, added-IsValid, init-IsValid, lookup_v-view,
  insert_kv-Inserts, insert_vk-Inserts,
}
use dshuffle.Map.Device
use dshuffle.Map.DeviceLaws

-- one entry, 5 ↦ 50
abbrev one_entry : MapImpl
one_entry = added bidirect 64 23 init 5 50

one_entry-IsValid : IsValid bidirect 64 23 one_entry
unfolding init
one_entry-IsValid =
    added-IsValid 64 23 init 5 50 bidirect (init-IsValid bidirect 64 23).0 (omega arith)

init-IsValid_example : IsValid bidirect 64 23 init × ((k : ℕ) → view init k ≡ none)
init-IsValid_example = init-IsValid bidirect 64 23

lookup_v-view_example : lookup_v bidirect 64 23 one_entry 5 ≡ ok (flagged (view one_entry 5))
lookup_v-view_example = lookup_v-view (omega arith) one_entry-IsValid 5

insert_kv-Inserts_example :
    Inserts bidirect 64 23 one_entry 28 7
      (view one_entry 28)
      (insert_kv bidirect 64 23 one_entry 28 7)
insert_kv-Inserts_example = insert_kv-Inserts (omega arith) one_entry-IsValid 28 7

insert_vk-Inserts_example :
    Inserts bidirect 64 23 one_entry 28 7
      (view_k one_entry 7)
      (insert_vk bidirect 64 23 one_entry 7 28)
insert_vk-Inserts_example = insert_vk-Inserts (omega arith) one_entry-IsValid 7 28

-- Keys 5 and 28 share a slot.
collision :
    (insert_kv bidirect 64 23 init 5 50 >>= λ r.
    insert_kv bidirect 64 23 r.0 28 51 >>= λ r. lookup_v bidirect 64 23 r.0 5)
    ≡ ok (50, true)
unfolding insert_kv lookup_v init search Host.h
collision = refl

abbrev device_entry : Device.DeviceMap
device_entry = DeviceLaws.added Device.init_map 5 50

device_entry-IsValid : DeviceLaws.IsValid device_entry
unfolding Device.init_map
device_entry-IsValid = DeviceLaws.added-IsValid DeviceLaws.init_map-IsValid.0 5 50 (omega arith)

map_lookup-view_example :
    Device.map_lookup device_entry 28 ≡ ok (DeviceLaws.word_of (DeviceLaws.view device_entry 28))
map_lookup-view_example = DeviceLaws.map_lookup-view device_entry-IsValid 28

map_insert-Inserts_example :
    DeviceLaws.Inserts device_entry 28 51
      (DeviceLaws.view device_entry 28)
      (Device.map_insert device_entry 28 51)
map_insert-Inserts_example = DeviceLaws.map_insert-Inserts device_entry-IsValid 28 51
