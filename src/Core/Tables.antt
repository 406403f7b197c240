-- ===== src/Core/Tables.antt =====
-- The neighbour table and the label table (crates/dldsr-core/src/tables.rs).
pub mod Labels
pub mod Assign
pub mod Exhaustion
use dl_dsr_rs.Base.{
  ℕ, nat_eq, zero, suc, Bool, true, false, not, ◌&&◌, [], Option, none, some, Result, ok, err,
  find?, any, nat_beq,
}
use mathlib.Core.Option
use dl_dsr_rs.HashMap.{HashMap, get, insert, values}
use dl_dsr_rs.Core.Socket.{SocketAddr}
use dl_dsr_rs.Core.Packet.{DldsrError, label_space_exhausted}

pub record NeighborEntry : Type 0 where
  pub node_id : ℕ
  pub label_assigned_by_me_to_neighbor : ℕ
  pub last_seen_millis : ℕ
  pub endpoint : SocketAddr
  pub alive : Bool

pub record NeighborTable : Type 0 where
  pub entries : HashMap ℕ NeighborEntry

abbrev pub empty_neighbors : NeighborTable
empty_neighbors = record { entries = [] }

-- `entry.alive && entry.label_assigned_by_me_to_neighbor == label`
abbrev pub has_label : ℕ → NeighborEntry → Bool
has_label label entry = entry.alive && nat_beq entry.label_assigned_by_me_to_neighbor label

-- `u8::MAX`
abbrev pub u8_max : ℕ
u8_max = 255

-- `(c..c + n).find(p)`
unfoldable pub find_in_range : ℕ → ℕ → (ℕ → Bool) → Option ℕ
find_in_range c zero p = none
find_in_range c (suc n) p = elim (p c) [ true ↦ some c | false ↦ find_in_range (suc c) n p ]

-- The least label from 1 to 255 that no live entry has.
unfoldable pub free_label : NeighborTable → Option ℕ
free_label t =
    find_in_range 1 u8_max (λ candidate. not (any (has_label candidate) (values t.entries)))

-- `NeighborTable::assign_or_reuse_label`: the table and the label, or the error.
unfoldable pub assign_or_reuse_label :
    NeighborTable → ℕ → SocketAddr → ℕ → NeighborTable × Result DldsrError ℕ
assign_or_reuse_label t node_id endpoint now = elim (get node_id t.entries) [
  | some entry ↦ (
    record {
      entries =
          insert node_id
            (record entry { endpoint = endpoint; last_seen_millis = now; alive = true }) t.entries;
    },
    ok entry.label_assigned_by_me_to_neighbor,
  )
  | none ↦ elim (free_label t) [
    | none ↦ (t, err label_space_exhausted)
    | some label ↦ (
      record {
        entries =
            insert node_id
              (record {
                node_id = node_id;
                label_assigned_by_me_to_neighbor = label;
                last_seen_millis = now;
                endpoint = endpoint;
                alive = true;
              })
              t.entries;
      },
      ok label,
    )
  ]
]

-- `NeighborTable::neighbor_by_label`
unfoldable pub neighbor_by_label : NeighborTable → ℕ → Option NeighborEntry
neighbor_by_label t label = find? (has_label label) (values t.entries)

-- `NeighborTable::get`
abbrev pub get_neighbor : NeighborTable → ℕ → Option NeighborEntry
get_neighbor t node_id = get node_id t.entries

pub record LabelEntry : Type 0 where
  pub neighbor_node_id : ℕ
  pub label_assigned_by_neighbor_to_me : ℕ
  pub last_seen_millis : ℕ

pub record LabelTable : Type 0 where
  pub entries : HashMap ℕ LabelEntry

abbrev pub empty_labels : LabelTable
empty_labels = record { entries = [] }

-- `LabelTable::update_from_hello_reply`
unfoldable pub update_from_hello_reply : LabelTable → ℕ → ℕ → ℕ → LabelTable
update_from_hello_reply t neighbor_node_id label now = record {
  entries =
      insert neighbor_node_id
        (record {
          neighbor_node_id = neighbor_node_id;
          label_assigned_by_neighbor_to_me = label;
          last_seen_millis = now;
        })
        t.entries;
}

-- `LabelTable::label_assigned_by_neighbor`
unfoldable pub label_assigned_by_neighbor : LabelTable → ℕ → Option ℕ
label_assigned_by_neighbor t neighbor_node_id =
    Option.map (λ entry. entry.label_assigned_by_neighbor_to_me) (get neighbor_node_id t.entries)
