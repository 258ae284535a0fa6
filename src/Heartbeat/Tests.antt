-- ===== src/Heartbeat/Tests.antt =====
-- The theorems on pkg/heartbeat at concrete inputs.
use gocanopen.Base.{◌≡◌, refl, false, none, some, [], ◌∷◌}
use gocanopen.Can.{Frame}
use gocanopen.Heartbeat.{
  HbEntry, HbConsumer, update, is_monitored, update_consumer_entry, configure, new_hb_consumer,
}
use gocanopen.Heartbeat.Unique.{IsUnique, new_hb_consumer-IsUnique}

-- Node 1 each second, node 2 each two seconds.
abbrev node_1 : HbEntry
node_1 = record {
  node_id = 1;
  cob_id = 0x701;
  nmt_state = 255;
  nmt_state_prev = 255;
  hb_state = 1;
  timeout_timer = 0;
  time_us = 1000000;
  rx_new = false;
}

abbrev node_2 : HbEntry
node_2 = record node_1 { node_id = 2; cob_id = 0x702; time_us = 2000000 }

abbrev two_nodes : HbConsumer
two_nodes = record {
  entries = node_1 ∷ node_2 ∷ [];
  all_monitored_active = false;
  all_monitored_operational = false;
  nmt_is_pre_or_operational_prev = false;
  event_callback = false;
}

configured_test : new_hb_consumer (0x103e8 ∷ 0x207d0 ∷ []) ≡ some two_nodes
unfolding new_hb_consumer configure update_consumer_entry update is_monitored
configured_test = refl

-- A node that another entry monitors already is refused.
duplicate_test : update_consumer_entry two_nodes 0 2 500 ≡ none
unfolding update_consumer_entry is_monitored
duplicate_test = refl

two_nodes-IsUnique : IsUnique two_nodes
two_nodes-IsUnique = new_hb_consumer-IsUnique (0x103e8 ∷ 0x207d0 ∷ []) two_nodes configured_test

new_hb_consumer-IsUnique_example : IsUnique two_nodes
new_hb_consumer-IsUnique_example =
    new_hb_consumer-IsUnique (0x103e8 ∷ 0x207d0 ∷ []) two_nodes configured_test

abbrev three : HbConsumer
three = record two_nodes { entries = node_1 ∷ record node_2 { node_id = 3; cob_id = 0x703 } ∷ [] }

replaced_test : update_consumer_entry two_nodes 1 3 2000 ≡ some three
unfolding update_consumer_entry is_monitored update
replaced_test = refl

abbrev alive : HbEntry
alive = record node_1 { nmt_state = 5; nmt_state_prev = 5; hb_state = 2 }

abbrev operational : Frame
operational = record { id = 0x701; flags = 0; dlc = 1; bytes = 5 ∷ 0 ∷ 0 ∷ 0 ∷ 0 ∷ 0 ∷ 0 ∷ 0 ∷ [] }
