-- ===== src/Heartbeat/Unique.antt =====
-- pkg/heartbeat/consumer.go: no node is monitored by two entries.
use gocanopen.Base.{
  replicate, zero, suc, ℕ, ◌+◌, ◌<◌, ◌≡◌, ◌≢◌, inl, inr, refl, true, false, some, List, [], ◌∷◌,
  arith, ◌==◌, length, set, get_or, length-set, get_or-set_self, get_or-set_ne, Bool-cases,
  Option-cases, ◌∙◌, sym,
}
use mathlib.Core.Path.{subst}
use mathlib.Core.Option.{some-injective}
use gocanopen.Heartbeat.{
  HbEntry, HbConsumer, no_entry, update, is_monitored, update_consumer_entry, configure,
  new_hb_consumer, node_of, period_of,
}

abbrev pub entry_at : HbConsumer → ℕ → HbEntry
entry_at c i = get_or c.entries i no_entry

-- Two places whose entries monitor the same node are one place.
abbrev pub IsUniqueList : List HbEntry → Type 0
IsUniqueList es =
    (i j : ℕ)
    → i < length es
    → j < length es
    → (get_or es i no_entry).time_us ≢ 0
    → (get_or es j no_entry).time_us ≢ 0
    → (get_or es i no_entry).node_id ≡ (get_or es j no_entry).node_id
    → i ≡ j

abbrev pub IsUnique : HbConsumer → Type 0
IsUnique c = IsUniqueList c.entries

not_monitored :
    (i index node : ℕ) (ms : List HbEntry) (k : ℕ)
    → is_monitored i index node ms ≡ false
    → k < length ms
    → i + k ≢ index
    → (get_or ms k no_entry).time_us ≢ 0
    → (get_or ms k no_entry).node_id ≢ node
unfolding is_monitored
not_monitored i index node [] k h inside other active = absurd (omega arith)
not_monitored i index node (m ∷ ms) zero h inside other active = ground (arith, h)
not_monitored i index node (m ∷ ms) (suc k) h inside other active =
    not_monitored (i + 1) index node ms k (ground (arith, h)) (omega arith) (omega arith) active

update-active :
    (m : HbEntry) (node ms : ℕ)
    → (update m node ms).time_us ≢ 0
    → (ms ≢ 0) × (node ≢ 0) × ((update m node ms).node_id ≡ node)
unfolding update
update-active m node ms h = ground (arith, h)

-- What an update that succeeds leaves.
updated :
    (c c' : HbConsumer) (index node ms : ℕ)
    → update_consumer_entry c index node ms ≡ some c'
    → (index < length c.entries)
      × (c'.entries ≡ set c.entries index (update (entry_at c index) node ms))
      × (ms ≢ 0 → node ≢ 0 → is_monitored 0 index node c.entries ≡ false)
unfolding update_consumer_entry
updated c c' index node ms h = ground (arith, h)

-- No entry of the list but the one at `index` monitors the node that `new` monitors.
abbrev IsFresh : List HbEntry → ℕ → HbEntry → Type 0
IsFresh es index new =
    (k : ℕ)
    → k < length es
    → k ≢ index
    → (get_or es k no_entry).time_us ≢ 0
    → new.time_us ≢ 0
    → (get_or es k no_entry).node_id ≢ new.node_id

unique_set :
    (es : List HbEntry) (index : ℕ) (new : HbEntry)
    → index < length es
    → IsUniqueList es
    → IsFresh es index new
    → IsUniqueList (set es index new)
unique_set es index new inside unique fresh i j i_in j_in i_on j_on same =
    elim (Bool-cases (i == index)) [
      | inl i_here ↦ elim (Bool-cases (j == index)) [
        | inl j_here ↦ ground (arith, i_here, j_here)
        | inr j_there ↦ absurd (
            fresh j (inner j j_in) (ground (arith, j_there)) (kept j j_there j_on)
              (placed i i_here i_on) (cc (same, here i i_here, there j j_there)))
      ]
      | inr i_there ↦ elim (Bool-cases (j == index)) [
        | inl j_here ↦ absurd (
            fresh i (inner i i_in) (ground (arith, i_there)) (kept i i_there i_on)
              (placed j j_here j_on) (cc (same, here j j_here, there i i_there)))
        | inr j_there ↦
            unique i j (inner i i_in) (inner j j_in) (kept i i_there i_on) (kept j j_there j_on)
              (cc (same, there i i_there, there j j_there))
      ]
    ]
  where
    inner : (k : ℕ) → k < length (set es index new) → k < length es
    inner k h = ground (arith, h, length-set es index new)

    here : (k : ℕ) → (k == index) ≡ true → get_or (set es index new) k no_entry ≡ new
    here k e = ground (arith, get_or-set_self es index new no_entry inside)

    there :
        (k : ℕ) → (k == index) ≡ false → get_or (set es index new) k no_entry ≡ get_or es k no_entry
    there k e = get_or-set_ne es index k new no_entry (ground (arith, e))

    kept :
        (k : ℕ)
        → (k == index) ≡ false
        → (get_or (set es index new) k no_entry).time_us ≢ 0
        → (get_or es k no_entry).time_us ≢ 0
    kept k e on z = on (cc (there k e, z))

    placed :
        (k : ℕ)
        → (k == index) ≡ true
        → (get_or (set es index new) k no_entry).time_us ≢ 0
        → new.time_us ≢ 0
    placed k e on z = on (cc (here k e, z))

IsFresh-update :
    (c : HbConsumer) (index node ms : ℕ)
    → (ms ≢ 0 → node ≢ 0 → is_monitored 0 index node c.entries ≡ false)
    → IsFresh c.entries index (update (entry_at c index) node ms)
IsFresh-update c index node ms free k inside other active on same =
    let facts = update-active (entry_at c index) node ms on in
    not_monitored 0 index node c.entries k (free facts.0 facts.1) inside (omega arith) active
      (same ∙ facts.2)

-- An update that succeeds keeps every node monitored by one entry at most.
update_consumer_entry-IsUnique :
    (c c' : HbConsumer) (index node ms : ℕ)
    → IsUnique c
    → update_consumer_entry c index node ms ≡ some c'
    → IsUnique c'
update_consumer_entry-IsUnique c c' index node ms unique h =
    let facts = updated c c' index node ms h in
    subst IsUniqueList (sym facts.1) (
      unique_set c.entries index (update (entry_at c index) node ms) facts.0 unique
        (IsFresh-update c index node ms facts.2))

configure-IsUnique :
    (c c' : HbConsumer) (index : ℕ) (values : List ℕ)
    → IsUnique c
    → configure c index values ≡ some c'
    → IsUnique c'
unfolding configure
configure-IsUnique c c' index [] unique h = subst IsUnique (some-injective c c' h) unique
configure-IsUnique c c' index (value ∷ values) unique h =
    elim (Option-cases (update_consumer_entry c index (node_of value) (period_of value))) [
      | inl failed ↦ ground (arith, failed, h)
      | inr (next, worked) ↦
          configure-IsUnique next c' (index + 1) values
            (update_consumer_entry-IsUnique c next index (node_of value) (period_of value) unique
              worked)
            (ground (arith, worked, h))
    ]

-- The consumer that `NewHBConsumer` builds from any values of the dictionary monitors every node by
-- one entry at most.
pub new_hb_consumer-IsUnique :
    (values : List ℕ) (c : HbConsumer) → new_hb_consumer values ≡ some c → IsUnique c
unfolding new_hb_consumer
new_hb_consumer-IsUnique values c h = configure-IsUnique _ c 0 values (idle (length values)) h
  where
    idle : (n : ℕ) → IsUniqueList (replicate n no_entry)
    idle n i j i_in j_in i_on j_on same = absurd (i_on (nothing n i))
      where
        nothing : (n i : ℕ) → (get_or (replicate n no_entry) i no_entry).time_us ≡ 0
        nothing zero i = refl
        nothing (suc n) zero = refl
        nothing (suc n) (suc i) = nothing n i
