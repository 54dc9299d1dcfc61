-- ===== src/Chunker/Groups.antt =====
-- The arithmetic of the groups that core/src/chunker.ts fills: order, sizes and bytes.
use watchup_v3_packages.Prelude.{
  ◌+◌, ◌≡◌, refl, sym, ap, ◌∙◌, List, [], ◌∷◌, ◌++◌, length, arith, append_assoc, append-nil,
  length-append, sum_of-append, ltb, if◌then◌else◌,
}
use watchup_v3_packages.Utf8.{Str, utf8_byte_length}
use watchup_v3_packages.Types.{Kind, get, put}
use watchup_v3_packages.Chunker.{comma}
use watchup_v3_packages.Chunker.Plan.{Groups, tag, sequence, sequences, size, array_bytes, payload}

-- While items of one kind are added, the later kinds have none in the open group.
abbrev pub UpTo : Kind → Groups → Type 0
UpTo Kind.errors g = (g.traces ≡ []) × (g.events ≡ [])
UpTo Kind.traces g = g.events ≡ []
UpTo Kind.events g = Unit

pub sequences-append : (gs hs : List Groups) → sequences (gs ++ hs) ≡ sequences gs ++ sequences hs
sequences-append [] hs = refl
sequences-append (g ∷ gs) hs =
    ap (◌++◌ (sequence g)) (sequences-append gs hs) ∙ sym (append_assoc (sequence g) _ _)

tag-append : (k : Kind) (s : Str) (ss : List Str) → tag k (ss ++ s ∷ []) ≡ tag k ss ++ (k, s) ∷ []
tag-append k s [] = refl
tag-append k s (t ∷ ss) = ap (◌∷◌ (k, t)) (tag-append k s ss)

-- A pushed text goes to the end of the open group's sequence.
pub sequence-put :
    (k : Kind) (s : Str) (g : Groups)
    → UpTo k g
    → sequence (put k (get k g ++ s ∷ []) g) ≡ sequence g ++ (k, s) ∷ []
sequence-put Kind.errors s g (no_traces, no_events) =
    rw (no_traces, no_events) (simp (tag-append, append-nil))
sequence-put Kind.traces s g no_events = rw no_events (simp (tag-append, append-nil, append_assoc))
sequence-put Kind.events s g u = simp (tag-append, append_assoc)

array_bytes-push :
    (s : Str) (ss : List Str)
    → array_bytes (ss ++ s ∷ []) ≡ array_bytes ss + utf8_byte_length s + comma ss
array_bytes-push s [] = omega arith
array_bytes-push s (t ∷ ss) =
    omega (arith, sum_of-append utf8_byte_length ss (s ∷ []), length-append ss (s ∷ []))

pub payload-put :
    (k : Kind) (s : Str) (g : Groups)
    → payload (put k (get k g ++ s ∷ []) g) ≡ payload g + utf8_byte_length s + comma (get k g)
payload-put Kind.errors s g = omega (arith, array_bytes-push s g.errors)
payload-put Kind.traces s g = omega (arith, array_bytes-push s g.traces)
payload-put Kind.events s g = omega (arith, array_bytes-push s g.events)

pub size-put : (k : Kind) (s : Str) (g : Groups) → size (put k (get k g ++ s ∷ []) g) ≡ size g + 1
size-put Kind.errors s g = omega (arith, length-append g.errors (s ∷ []))
size-put Kind.traces s g = omega (arith, length-append g.traces (s ∷ []))
size-put Kind.events s g = omega (arith, length-append g.events (s ∷ []))

pub UpTo-put : (k : Kind) (ss : List Str) (g : Groups) → UpTo k g → UpTo k (put k ss g)
UpTo-put Kind.errors ss g u = u
UpTo-put Kind.traces ss g u = u
UpTo-put Kind.events ss g u = tt

pub UpTo-nil : (k : Kind) → UpTo k (record { errors = []; traces = []; events = [] })
UpTo-nil Kind.errors = (refl, refl)
UpTo-nil Kind.traces = refl
UpTo-nil Kind.events = tt

pub comma_of_push :
    (s : Str) (ss : List Str) → (if ltb 1 (length (ss ++ s ∷ [])) then 1 else 0) ≡ comma ss
comma_of_push s [] = refl
comma_of_push s (t ∷ ss) = ground (arith, length-append ss (s ∷ []))

tag-nil : (k : Kind) (ss : List Str) → length ss ≡ 0 → tag k ss ≡ []
tag-nil k [] h = refl
tag-nil k (s ∷ ss) h = absurd (omega arith)

pub sequence-nil : (g : Groups) → size g ≡ 0 → sequence g ≡ []
sequence-nil g h = rw (
  tag-nil Kind.errors g.errors (omega arith),
  tag-nil Kind.traces g.traces (omega arith),
  tag-nil Kind.events g.events (omega arith),
)
