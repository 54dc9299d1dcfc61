-- ===== src/Browser/Unsent.antt =====
-- browser/src/unsent.ts: the chunks that the browser refused during unload, in its local storage.
pub mod Laws
mod Tests
use watchup_v3_packages.Prelude.{
  ℕ, ◌+◌, ◌-◌, ◌*◌, ◌++◌, ◌==◌, not, Bool, true, false, List, [], ◌∷◌, ltb, if◌then◌else◌, Option,
  none, some, any, keep_if, length, sum_of, same,
}
use watchup_v3_packages.Utf8.{Str}
use watchup_v3_packages.Types.{PerKind, Chunk}

abbrev pub max_stored_bytes : ℕ
max_stored_bytes = 256 * 1024

pub record Stored : Type 0 where
  pub idempotency_key : Str
  pub body : Str
  pub bytes : ℕ
  pub counts : PerKind ℕ
  pub attempts : ℕ

-- An element of the array that was read; a key or a body that is no string is `none`.
pub record Entry : Type 0 where
  pub idempotency_key : Option Str
  pub body : Option Str
  pub bytes : ℕ
  pub counts : PerKind ℕ
  pub attempts : ℕ

-- The browser's storage with JSON on top, for the one key that is used. `get_item` is
-- `JSON.parse(localStorage.getItem(KEY))`: none if it throws, `some none` if nothing is stored or
-- it is no array. The other two are `setItem` of the list's text and `removeItem`: none if they throw.
pub record Storage (S : Type 0) : Type 0 where
  pub get_item : S → Option (Option (List Entry))
  pub set_item : List Stored → S → Option S
  pub remove_item : S → Option S

-- The test of the filter in `read`.
unfoldable pub accept : Entry → List Stored → List Stored
accept c rest = elim c.body [
  | none ↦ rest
  | some body ↦ elim c.idempotency_key [
    | none ↦ rest
    | some key ↦
        record {
          idempotency_key = key;
          body = body;
          bytes = c.bytes;
          counts = c.counts;
          attempts = c.attempts;
        }
        ∷ rest
  ]
]

unfoldable pub accept_all : List Entry → List Stored
accept_all [] = []
accept_all (c ∷ cs) = accept c (accept_all cs)

abbrev pub or_same {ℓ} : {A : Type ℓ} → Option A → A → A
or_same none a = a
or_same (some b) a = b

abbrev pub has_key : Str → Stored → Bool
has_key key c = same c.idempotency_key key

abbrev pub without : Str → List Stored → List Stored
without key = keep_if (λ c. not (has_key key c))

abbrev pub total_bytes : List Stored → ℕ
total_bytes = sum_of (λ c. c.bytes)

-- `while (list.length && total > MAX_STORED_BYTES) total -= list.shift()!.bytes`
unfoldable pub shift_over : ℕ → List Stored → List Stored
shift_over total [] = []
shift_over total (c ∷ cs) =
    let shorter = shift_over (total - c.bytes) cs in
    if ltb max_stored_bytes total then shorter else c ∷ cs

abbrev pub stored_of : Chunk → Stored
stored_of c = record {
  idempotency_key = c.idempotency_key;
  body = c.body;
  bytes = c.bytes;
  counts = c.counts;
  attempts = c.attempts;
}

module _ {S : Type 0} (storage : Storage S) where
  open storage use {get_item, set_item, remove_item}

  unfoldable pub read : S → List Stored
  read s = elim (get_item s) [
    | none ↦ []
    | some raw ↦ elim raw [ none ↦ [] | some list ↦ accept_all list ]
  ]

  unfoldable pub write : List Stored → S → S
  write [] s = or_same (remove_item s) s
  write (c ∷ cs) s = or_same (set_item (c ∷ cs) s) s

  -- The list that `saveUnsent` writes.
  unfoldable pub saved_list : Chunk → S → List Stored
  saved_list chunk s =
      let list = without chunk.idempotency_key (read s) ++ stored_of chunk ∷ [] in
      shift_over (total_bytes list) list

  unfoldable pub save_unsent : Chunk → S → S × Bool
  save_unsent chunk s =
      let list = saved_list chunk s in (write list s, any (has_key chunk.idempotency_key) list)

  unfoldable pub forget_unsent : Str → S → S
  forget_unsent key s =
      let next = without key (read s) in if length next == length (read s) then s else write next s

  unfoldable pub take_unsent : S → S × List Stored
  take_unsent s = ((if length (read s) == 0 then s else write [] s), read s)
