-- ===== src/Chunker/Plan.antt =====
-- What core/src/chunker.ts should make of the pending items: a list of groups, in the order of
-- sending, that the chunks are rendered from.
use watchup_v3_packages.Prelude.{
  ℕ, ◌+◌, ◌-◌, ◌≤◌, ◌≡◌, ◌⊎◌, List, [], ◌∷◌, ◌++◌, map, length, sum_of, All,
}
use watchup_v3_packages.Utf8.{Str, utf8_byte_length}
use watchup_v3_packages.Types.{
  Kind, errors, traces, events, PerKind, EnvelopeBase, PreparedItem, Chunk,
}
use watchup_v3_packages.Chunker.{ChunkLimits, envelope_overhead, chunk_of}

abbrev pub Groups : Type 0
Groups = PerKind (List Str)

abbrev pub tag : Kind → List Str → List (Kind × Str)
tag kind = map (λ s. (kind, s))

-- The items of a group in the order of sending, each with its kind.
abbrev pub sequence : Groups → List (Kind × Str)
sequence g = tag errors g.errors ++ (tag traces g.traces ++ tag events g.events)

abbrev pub sequences : List Groups → List (Kind × Str)
sequences [] = []
sequences (g ∷ gs) = sequence g ++ sequences gs

abbrev pub size : Groups → ℕ
size g = length g.errors + length g.traces + length g.events

-- Bytes of the texts of one array, with the commas between them.
abbrev pub array_bytes : List Str → ℕ
array_bytes ss = sum_of utf8_byte_length ss + (length ss - 1)

abbrev pub payload : Groups → ℕ
payload g = array_bytes g.errors + array_bytes g.traces + array_bytes g.events

-- The byte count of a prepared item is that of its text.
abbrev pub IsMeasured : PreparedItem → Type 0
IsMeasured item = item.bytes ≡ utf8_byte_length item.json

abbrev pub texts : List PreparedItem → List Str
texts = map (λ item. item.json)

abbrev pub pending_texts : PerKind (List PreparedItem) → Groups
pending_texts p = record {
  errors = texts p.errors;
  traces = texts p.traces;
  events = texts p.events;
}

module _ (base : EnvelopeBase) (limits : ChunkLimits) (batch_id sent_at : Str) (now : ℕ) where
  -- Not empty, within the count limit, and within the byte limit unless it holds one item.
  abbrev pub Fits : Groups → Type 0
  Fits g =
      (1 ≤ size g)
      × (size g ≤ limits.max_items)
      × ((envelope_overhead base sent_at + payload g ≤ limits.max_bytes) ⊎ (size g ≡ 1))

  abbrev pub render : ℕ → List Groups → List Chunk
  render i [] = []
  render i (g ∷ gs) = chunk_of base limits batch_id sent_at now i g ∷ render (i + 1) gs

  pub record IsChunking (pending : PerKind (List PreparedItem)) (chunks : List Chunk) : Type 0 where
    pub groups : List Groups
    pub rendered : chunks ≡ render 0 groups
    pub ordered : sequences groups ≡ sequence (pending_texts pending)
    pub fitting : All Fits groups
