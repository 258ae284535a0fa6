-- ===== src/Heartbeat.antt =====
-- pkg/heartbeat/consumer.go, pkg/heartbeat/extensions.go: the consumer that monitors other nodes'
-- heartbeats. The emergency object is passed through; the events given to the callback are returned
-- in order. The subscription on the bus succeeds, and nothing changes an entry while it is processed,
-- since its own mutex is held.
pub mod Unique
pub mod Timeout
mod Tests
use gocanopen.Base.{
  suc, ℕ, ◌+◌, ◌-◌, ◌*◌, ◌/◌, Bool, true, false, not, ◌&&◌, ◌||◌, Option, none, some, List, [], ◌∷◌,
  ◌++◌, map, length, get_or, set, ltb, leb, ◌==◌, if◌then◌else◌, u8, u16, u32, le32, replicate,
}
use gocanopen.Can.{Frame, at_most}
use gocanopen.Emergency.{
  Emcy, error_report, error_reset, em_heartbeat_consumer, em_hb_consumer_remote_reset,
  err_heartbeat,
}
use gocanopen.Nmt.{state_initializing, state_operational, state_unknown}
use gocanopen.Od.Errors.{dev_incompat, par_incompat, Odr, Outcome, done}
use gocanopen.Od.Stream.{Stream, WriteResult, write_entry_default}

-- The states of a monitored node.
abbrev pub heartbeat_unconfigured : ℕ
heartbeat_unconfigured = 0

abbrev pub heartbeat_unknown : ℕ
heartbeat_unknown = 1

abbrev pub heartbeat_active : ℕ
heartbeat_active = 2

abbrev pub heartbeat_timeout : ℕ
heartbeat_timeout = 3

-- The events.
abbrev pub event_started : ℕ
event_started = 1

abbrev pub event_timeout : ℕ
event_timeout = 2

abbrev pub event_changed : ℕ
event_changed = 3

abbrev pub event_boot : ℕ
event_boot = 4

abbrev pub service_id : ℕ
service_id = 0x700

-- `hbConsumerEntry`
pub record HbEntry : Type 0 where
  pub node_id : ℕ
  pub cob_id : ℕ
  pub nmt_state : ℕ
  pub nmt_state_prev : ℕ
  pub hb_state : ℕ
  pub timeout_timer : ℕ
  pub time_us : ℕ
  pub rx_new : Bool

-- `HBConsumer`; `event_callback` says that a callback is set.
pub record HbConsumer : Type 0 where
  pub entries : List HbEntry
  pub all_monitored_active : Bool
  pub all_monitored_operational : Bool
  pub nmt_is_pre_or_operational_prev : Bool
  pub event_callback : Bool

-- A call of the callback.
pub record HbEvent : Type 0 where
  pub event : ℕ
  pub index : ℕ
  pub node : ℕ
  pub state : ℕ

-- `Handle` of an entry.
unfoldable pub handle : HbEntry → Frame → HbEntry
handle m frame =
    if frame.dlc == 1 then record m { nmt_state = get_or frame.bytes 0 0; rx_new = true } else m

-- `update`
unfoldable pub update : HbEntry → (node_id consumer_time_ms : ℕ) → HbEntry
update m node_id consumer_time_ms =
    let m' = record m {
      node_id = node_id;
      time_us = consumer_time_ms * 1000;
      nmt_state = state_unknown;
      nmt_state_prev = state_unknown;
      rx_new = false;
    } in
    if not (node_id == 0) && not (consumer_time_ms * 1000 == 0)
    then record m' { cob_id = u16 (node_id + service_id); hb_state = heartbeat_unknown }
    else record m' { cob_id = 0; time_us = 0; hb_state = heartbeat_unconfigured }

-- What an entry's part of `Process` works on.
pub record Monitored : Type 0 where
  pub entry : HbEntry
  pub emcy : Emcy
  pub timer_next : Option ℕ
  pub events : List HbEvent

-- The received message of the entry at place `i`: the entry, the emergency object, the events, and
-- the time that still counts.
unfoldable pub received : ℕ → HbEntry → Emcy → ℕ → Monitored × ℕ
received i m e dt =
    let next = none in
    if not m.rx_new
    then (record { entry = m; emcy = e; timer_next = next; events = [] }, dt)
    else if m.nmt_state == state_initializing
    then (
      record {
        entry = record m { hb_state = heartbeat_unknown; rx_new = false };
        emcy =
            if m.hb_state == heartbeat_active
            then error_report e em_hb_consumer_remote_reset err_heartbeat i
            else e;
        timer_next = next;
        events =
            record {
              event = event_boot;
              index = u8 (i + 1);
              node = m.node_id;
              state = state_initializing;
            }
            ∷ [];
      },
      dt,
    )
    else (
      record {
        entry = record m { hb_state = heartbeat_active; timeout_timer = 0; rx_new = false };
        emcy = e;
        timer_next = next;
        events =
            if m.hb_state == heartbeat_active
            then []
            else record {
              event = event_started;
              index = u8 (i + 1);
              node = m.node_id;
              state = state_initializing;
            }
              ∷ [];
      },
      0,
    )

-- `timeoutTimer += timeDifferenceUsCopy` and the check of the timeout.
unfoldable pub checked : ℕ → HbEntry → Emcy → ℕ → Option ℕ → Monitored
checked i m e dt next =
    let timer = u32 (m.timeout_timer + dt) in
    if not (m.hb_state == heartbeat_active)
    then record { entry = m; emcy = e; timer_next = next; events = [] }
    else if leb m.time_us timer
    then record {
      entry = record m {
        timeout_timer = timer;
        nmt_state = state_unknown;
        hb_state = heartbeat_timeout;
      };
      emcy = error_report e em_hb_consumer_remote_reset err_heartbeat i;
      timer_next = next;
      events =
          record {
            event = event_timeout;
            index = u8 (i + 1);
            node = m.node_id;
            state = state_unknown;
          }
          ∷ [];
    }
    else record {
      entry = record m { timeout_timer = timer };
      emcy = e;
      timer_next = recheck (m.time_us - timer) next;
      events = [];
    }
  where
    recheck : ℕ → Option ℕ → Option ℕ
    recheck diff none = none
    recheck diff (some timer) = some (at_most diff timer)

-- A change of the NMT state is signalled.
unfoldable pub changed : ℕ → HbEntry → HbEntry × List HbEvent
changed i m = if m.nmt_state == m.nmt_state_prev then (m, []) else (
  record m { nmt_state_prev = m.nmt_state },
  record { event = event_changed; index = u8 (i + 1); node = m.node_id; state = m.nmt_state } ∷ [],
)

-- `Process` of the entry at place `i`.
unfoldable pub process_entry : ℕ → HbEntry → Emcy → ℕ → Option ℕ → Monitored
process_entry i m e dt next =
    if m.hb_state == heartbeat_unconfigured
    then record { entry = m; emcy = e; timer_next = next; events = [] }
    else let (r, dt') = received i m e dt in
      let c = checked i r.entry r.emcy dt' next in
      let (m', events) = changed i c.entry in
      record {
        entry = m';
        emcy = c.emcy;
        timer_next = c.timer_next;
        events = r.events ++ c.events ++ events;
      }

-- The loop over the entries from place `i` on.
pub record Round : Type 0 where
  pub entries : List HbEntry
  pub emcy : Emcy
  pub timer_next : Option ℕ
  pub events : List HbEvent

unfoldable pub process_entries : ℕ → List HbEntry → Emcy → ℕ → Option ℕ → Round
process_entries i [] e dt next = record { entries = []; emcy = e; timer_next = next; events = [] }
process_entries i (m ∷ ms) e dt next =
    let p = process_entry i m e dt next in
    let rest = process_entries (i + 1) ms p.emcy dt p.timer_next in
    record {
      entries = p.entry ∷ rest.entries;
      emcy = rest.emcy;
      timer_next = rest.timer_next;
      events = p.events ++ rest.events;
    }

-- The entry when the node's own NMT state enters or leaves pre-operational and operational.
unfoldable pub cleared : HbEntry → HbEntry
cleared m = record m {
  nmt_state = state_unknown;
  nmt_state_prev = state_unknown;
  rx_new = false;
  hb_state =
      if m.hb_state == heartbeat_unconfigured then heartbeat_unconfigured else heartbeat_unknown;
}

-- All configured entries are in the state that counts; entries left unconfigured do not count.
unfoldable pub all_active : List HbEntry → Bool
all_active [] = true
all_active (m ∷ ms) =
    let rest = all_active ms in
    if m.hb_state == heartbeat_unconfigured then rest else (m.hb_state == heartbeat_active) && rest

unfoldable pub all_operational : List HbEntry → Bool
all_operational [] = true
all_operational (m ∷ ms) =
    let rest = all_operational ms in
    if m.hb_state == heartbeat_unconfigured
    then rest
    else (m.nmt_state == state_operational) && rest

-- The end of `Process`: emergencies are reset once all monitored nodes are active.
unfoldable pub concluded :
    HbConsumer → Bool → Round → (active operational : Bool) → HbConsumer × Round
concluded c nmt_active r active operational = (
  record c {
    entries = r.entries;
    all_monitored_active = active;
    all_monitored_operational = operational;
    nmt_is_pre_or_operational_prev = nmt_active;
  },
  record r {
    emcy =
        if not c.all_monitored_active && active
        then error_reset (error_reset r.emcy em_heartbeat_consumer 0) em_hb_consumer_remote_reset 0
        else r.emcy;
    events = if c.event_callback then r.events else [];
  },
)

-- `Process`
unfoldable pub process : HbConsumer → Emcy → Bool → ℕ → Option ℕ → HbConsumer × Round
process c e nmt_active dt next =
    let r = process_entries 0 c.entries e dt next in
    if nmt_active && c.nmt_is_pre_or_operational_prev
    then concluded c nmt_active r (all_active r.entries) (all_operational r.entries)
    else if nmt_active || c.nmt_is_pre_or_operational_prev
    then concluded c nmt_active
        (record { entries = map cleared c.entries; emcy = e; timer_next = next; events = [] }) false
        false
    else concluded c nmt_active
        (record { entries = c.entries; emcy = e; timer_next = next; events = [] }) true true

-- An entry from place `i` on, other than the one at `index`, monitors the node.
unfoldable pub is_monitored : (i index node_id : ℕ) → List HbEntry → Bool
is_monitored i index node_id [] = false
is_monitored i index node_id (m ∷ ms) =
    (not (index == i) && not (m.time_us == 0) && (m.node_id == node_id))
    || is_monitored (i + 1) index node_id ms

abbrev pub no_entry : HbEntry
no_entry = record {
  node_id = 0;
  cob_id = 0;
  nmt_state = 0;
  nmt_state_prev = 0;
  hb_state = 0;
  timeout_timer = 0;
  time_us = 0;
  rx_new = false;
}

-- `updateConsumerEntry`: the consumer, or `none` for ErrIllegalArgument.
unfoldable pub update_consumer_entry :
    HbConsumer → (index node_id consumer_time_ms : ℕ) → Option HbConsumer
update_consumer_entry c index node_id ms =
    if leb (length c.entries) index
    then none
    else if not (ms == 0) && not (node_id == 0) && is_monitored 0 index node_id c.entries
    then none
    else some (record c {
      entries = set c.entries index (update (get_or c.entries index no_entry) node_id ms);
    })

-- The node and the period in a value of the dictionary.
abbrev pub node_of : ℕ → ℕ
node_of value = u8 (value / 65536)

abbrev pub period_of : ℕ → ℕ
period_of value = u16 value

after_update : HbConsumer → Stream → List ℕ → Option HbConsumer → HbConsumer × Outcome WriteResult
after_update c s data' none = (c, done (record { stream = s; count = 0; err = some par_incompat }))
after_update c s data' (some c') = (c', write_entry_default s data')

-- `writeEntry1016`, on a stream whose object is the consumer.
unfoldable pub write_entry_1016 : HbConsumer → Stream → List ℕ → HbConsumer × Outcome WriteResult
unfolding after_update
write_entry_1016 c s data' =
    if ltb s.subindex 1 || ltb (length c.entries) s.subindex || not (length data' == 4)
    then (c, done (record { stream = s; count = 0; err = some dev_incompat }))
    else after_update c s data' (
        update_consumer_entry c (s.subindex - 1) (node_of (le32 data' 0))
          (period_of (le32 data' 0)))

-- The loop of `NewHBConsumer` over the values of the dictionary, from place `index` on.
unfoldable pub configure : HbConsumer → ℕ → List ℕ → Option HbConsumer
configure c index [] = some c
configure c index (value ∷ values) =
    elim (update_consumer_entry c index (node_of value) (period_of value)) [
      | none ↦ none
      | some c' ↦ configure c' (index + 1) values
    ]

-- `NewHBConsumer` with the values of the entry's subindices.
unfoldable pub new_hb_consumer : List ℕ → Option HbConsumer
new_hb_consumer values =
    configure
      (record {
        entries = replicate (length values) no_entry;
        all_monitored_active = false;
        all_monitored_operational = false;
        nmt_is_pre_or_operational_prev = false;
        event_callback = false;
      })
      0 values
