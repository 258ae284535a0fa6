-- ===== src/Config/Services.antt =====
-- pkg/config/general.go, heartbeat.go, sync.go and time.go: the identity, the monitored nodes, SYNC and
-- TIME of a remote node. The names of the manufacturer are left out.
use gocanopen.Base.{
  ℕ, zero, suc, ◌+◌, ◌*◌, ◌/◌, ◌%◌, List, [], ◌∷◌, u8, u16, u32, Option, none, some,
}
use gocanopen.Config.{
  Client, ok, failed, Task, return, chain, optional, read_uint8, read_uint16, read_uint32,
  write_uint8, write_uint16, write_uint32, change, set_bit30, clear_bit30, set_bit31, clear_bit31,
}

pub record Identity : Type 0 where
  pub vendor_id : ℕ
  pub product_code : ℕ
  pub revision_number : ℕ
  pub serial_number : ℕ

module _ (c : Client) where
  -- `ReadIdentity`: only the vendor has to be there.
  pub read_identity : Task c Identity
  unfolding chain optional
  read_identity = chain c (read_uint32 c 0x1018 1) (λ vendor.
      chain c (optional c (read_uint32 c 0x1018 2)) (λ product.
        chain c (optional c (read_uint32 c 0x1018 3)) (λ revision.
          chain c (optional c (read_uint32 c 0x1018 4)) (λ serial. return c (record {
            vendor_id = vendor;
            product_code = product;
            revision_number = revision;
            serial_number = serial;
          })))))

  -- `ReadMaxMonitorableNodes`
  unfoldable pub read_max_monitorable_nodes : Task c ℕ
  read_max_monitorable_nodes = read_uint8 c 0x1016 0

  -- What an object 0x1016 monitors: the node and the period.
  unfoldable pub monitored : (period_and_id : ℕ) → ℕ × ℕ
  monitored period_and_id = (period_and_id / 65536 % 256, u16 period_and_id)

  -- The loop of `ReadMonitoredNodes`, which keeps what it has read beside an error.
  unfoldable pub read_monitored_from : (left i : ℕ) → Task c (List (ℕ × ℕ) × Option c.Failure)
  read_monitored_from zero i s = (s, ok ([], none))
  read_monitored_from (suc left) i s =
      let (s', r) = read_uint32 c 0x1016 (u8 (i + 1)) s in
      elim r [
        | failed err ↦ (s', ok ([], some err))
        | ok value ↦
            chain c (read_monitored_from left (i + 1))
              (λ (rest, err). return c (monitored value ∷ rest, err)) s'
      ]

  -- `ReadMonitoredNodes`
  unfoldable pub read_monitored_nodes : Task c (List (ℕ × ℕ) × Option c.Failure)
  read_monitored_nodes = chain c read_max_monitorable_nodes (λ count. read_monitored_from count 0)

  -- `WriteMonitoredNode`
  unfoldable pub write_monitored_node : (index node_id period_ms : ℕ) → Task c Unit
  write_monitored_node index node_id period_ms =
      write_uint32 c 0x1016 index (u32 (node_id * 65536 + u16 period_ms))

  -- `ReadHeartbeatPeriod` and `WriteHeartbeatPeriod`
  unfoldable pub read_heartbeat_period : Task c ℕ
  read_heartbeat_period = read_uint16 c 0x1017 0

  unfoldable pub write_heartbeat_period : (period_ms : ℕ) → Task c Unit
  write_heartbeat_period period_ms = write_uint16 c 0x1017 0 period_ms

  -- sync.go
  unfoldable pub read_cob_id_sync : Task c ℕ
  read_cob_id_sync = read_uint32 c 0x1005 0

  unfoldable pub read_counter_overflow : Task c ℕ
  read_counter_overflow = read_uint8 c 0x1019 0

  unfoldable pub read_communication_period : Task c ℕ
  read_communication_period = read_uint32 c 0x1006 0

  unfoldable pub read_window_length_pdos : Task c ℕ
  read_window_length_pdos = read_uint32 c 0x1007 0

  unfoldable pub producer_enable_sync : Task c Unit
  producer_enable_sync = change c 0x1005 0 (set_bit30 c)

  unfoldable pub producer_disable_sync : Task c Unit
  producer_disable_sync = change c 0x1005 0 (clear_bit30 c)

  unfoldable pub write_can_id_sync : (can_id : ℕ) → Task c Unit
  write_can_id_sync can_id = write_uint32 c 0x1005 0 can_id

  unfoldable pub write_counter_overflow : (counter : ℕ) → Task c Unit
  write_counter_overflow counter = write_uint8 c 0x1019 0 counter

  unfoldable pub write_communication_period : (period_us : ℕ) → Task c Unit
  write_communication_period period_us = write_uint32 c 0x1006 0 period_us

  unfoldable pub write_window_length_pdos : (window_period_us : ℕ) → Task c Unit
  write_window_length_pdos window_period_us = write_uint32 c 0x1007 0 window_period_us

  -- time.go
  unfoldable pub read_cob_id_time : Task c ℕ
  read_cob_id_time = read_uint32 c 0x1012 0

  unfoldable pub producer_enable_time : Task c Unit
  producer_enable_time = change c 0x1012 0 (set_bit30 c)

  unfoldable pub producer_disable_time : Task c Unit
  producer_disable_time = change c 0x1012 0 (clear_bit30 c)

  unfoldable pub consumer_enable_time : Task c Unit
  consumer_enable_time = change c 0x1012 0 (set_bit31 c)

  unfoldable pub consumer_disable_time : Task c Unit
  consumer_disable_time = change c 0x1012 0 (clear_bit31 c)
