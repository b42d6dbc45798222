-- ===== src/IoManager/Manager.antt =====
-- `IOManager` of network/io_manager.cpp: the connections that wait to be accepted, by number. The
-- map is its list of entries in the order of the keys. What a connection is does not matter here;
-- each locked section is one step.
pub mod Laws
use zktls_bench.Prelude.{
  ℕ, zero, suc, ◌+◌, ◌-◌, ◌%◌, ◌^◌, Bool, true, false, not, ◌&&◌, ◌||◌, Option, none, some, List,
  [], ◌∷◌, ◌++◌, ltb, leb, ◌==◌, if◌then◌else◌, length, take, set, replicate,
}
use zktls_bench.Errors.{Outcome, ok, err, fault, ◌>>=◌}
use zktls_bench.IoManager.Ports.{Ports, free_used_port}

module _ (Io : Type 0) where
  -- The connections of a number; `none` is a null pointer.
  abbrev pub Slots : Type 0
  Slots = List (Option Io)

  pub record IoManager : Type 0 where
    pub pado_io_map : List (ℕ × Slots)
    pub created_timestamp_map : List (ℕ × ℕ)
    pub previous_check_timestamp : ℕ
    pub listen_flag : Bool

  abbrev pub new_io_manager : IoManager
  new_io_manager = record {
    pado_io_map = [];
    created_timestamp_map = [];
    previous_check_timestamp = 0;
    listen_flag = true;
  }

  abbrev pub stop_listen : IoManager → IoManager
  stop_listen m = record m { listen_flag = false }

module _ {A : Type 0} where
  -- `map[key]`, with what stands there when the key is new.
  unfoldable pub find_or : A → ℕ → List (ℕ × A) → A
  find_or d key [] = d
  find_or d key (entry ∷ entries) = if entry.0 == key then entry.1 else find_or d key entries

  unfoldable pub put_entry : ℕ → A → List (ℕ × A) → List (ℕ × A)
  put_entry key v [] = (key, v) ∷ []
  put_entry key v (entry ∷ entries) =
      if entry.0 == key
      then (key, v) ∷ entries
      else if ltb key entry.0
      then (key, v) ∷ entry ∷ entries
      else entry ∷ put_entry key v entries

  unfoldable pub erase : ℕ → List (ℕ × A) → List (ℕ × A)
  erase key [] = []
  erase key (entry ∷ entries) = if entry.0 == key then entries else entry ∷ erase key entries

-- The difference of two 32-bit times is more than ten minutes.
abbrev pub is_old : ℕ → ℕ → Bool
is_old timestamp created = ltb 600 ((timestamp + 2 ^ 32 - created) % 2 ^ 32)

module _ {Io : Type 0} where
  unfoldable pub is_some_null : Slots Io → Bool
  is_some_null [] = false
  is_some_null (none ∷ vec) = true
  is_some_null (some io ∷ vec) = is_some_null vec

  -- The first locked section of `init_pado_io`: `num` null pointers for a number just given out.
  unfoldable pub reserve_number : IoManager Io → ℕ → ℕ → ℕ → IoManager Io
  reserve_number m num number timestamp = record m {
    pado_io_map =
        put_entry number (find_or [] number m.pado_io_map ++ replicate num none) m.pado_io_map;
    created_timestamp_map = put_entry number timestamp m.created_timestamp_map;
  }

  -- A connection in its slot, and a null pointer behind the slots once all are taken; `none` for an
  -- index behind the end.
  unfoldable pub fill_slot : Slots Io → ℕ → Io → Option (Slots Io)
  fill_slot vec has_number io =
      if ltb has_number (length vec)
      then (let vec' = set vec has_number (some io) in
          if is_some_null vec' then some vec' else some (vec' ++ (none ∷ [])))
      else none

  -- The second locked section. The number and the index may come from the peer; an index behind the
  -- end is undefined behaviour.
  unfoldable pub place_io : IoManager Io → ℕ → ℕ → Io → Outcome (IoManager Io)
  place_io m number has_number io =
      elim (fill_slot (find_or [] number m.pado_io_map) has_number io) [
        | none ↦ fault
        | some vec ↦ ok (record m { pado_io_map = put_entry number vec m.pado_io_map })
      ]

  -- The first entry with more than `num` connections.
  unfoldable pub find_full : ℕ → List (ℕ × Slots Io) → Option (ℕ × Slots Io)
  find_full num [] = none
  find_full num (entry ∷ entries) =
      if ltb num (length entry.1) then some entry else find_full num entries

  -- A round of `accept`: the connections of a number, which is free again; `none` while it waits.
  unfoldable pub accept : ℕ → IoManager Io → Ports → Option (Slots Io × IoManager Io × Ports)
  accept num m ports = elim (find_full num m.pado_io_map) [
    | none ↦ none
    | some entry ↦ some (
      take num entry.1,
      record m {
        pado_io_map = erase entry.0 m.pado_io_map;
        created_timestamp_map = erase entry.0 m.created_timestamp_map;
      },
      free_used_port ports entry.0,
    )
  ]

  -- The walk over the creation times: those that are kept, and the connections that are.
  unfoldable pub clear_old :
      Bool → ℕ → List (ℕ × ℕ) → List (ℕ × Slots Io) → List (ℕ × ℕ) × List (ℕ × Slots Io)
  clear_old force timestamp [] ios = ([], ios)
  clear_old force timestamp (entry ∷ entries) ios =
      let dropped = clear_old force timestamp entries (erase entry.0 ios) in
      let (kept, ios') = clear_old force timestamp entries ios in
      if force || is_old timestamp entry.1 then dropped else (entry ∷ kept, ios')

  unfoldable pub clear_pado_io : Bool → ℕ → IoManager Io → IoManager Io
  clear_pado_io force timestamp m =
      if force || is_old timestamp m.previous_check_timestamp
      then (let (kept, ios) = clear_old force timestamp m.created_timestamp_map m.pado_io_map in
          record m {
            pado_io_map = ios;
            created_timestamp_map = kept;
            previous_check_timestamp = timestamp;
          })
      else m

-- `get_pado_io_num`, with and without REUSE_IO.
abbrev pub get_pado_io_num : Bool → ℕ → ℕ
get_pado_io_num reuse_io threads =
    if reuse_io then if ltb 2 threads then threads else 2 else threads + 2
