-- ===== src/Types/Kinds.antt =====
-- `Record<Kind, A>` of core/src/types.ts: reading one kind after writing another.
use watchup_v3_packages.Prelude.{◌≡◌, ◌≢◌, refl}
use watchup_v3_packages.Types.{Kind, PerKind, get, put}

module _ {A : Type 0} where
  pub get-put : (k : Kind) (a : A) (r : PerKind A) → get k (put k a r) ≡ a
  get-put Kind.errors a r = refl
  get-put Kind.traces a r = refl
  get-put Kind.events a r = refl

  pub get-put_ne : (j k : Kind) (a : A) (r : PerKind A) → j ≢ k → get j (put k a r) ≡ get j r
  get-put_ne Kind.errors Kind.errors a r h = absurd (h refl)
  get-put_ne Kind.errors Kind.traces a r h = refl
  get-put_ne Kind.errors Kind.events a r h = refl
  get-put_ne Kind.traces Kind.errors a r h = refl
  get-put_ne Kind.traces Kind.traces a r h = absurd (h refl)
  get-put_ne Kind.traces Kind.events a r h = refl
  get-put_ne Kind.events Kind.errors a r h = refl
  get-put_ne Kind.events Kind.traces a r h = refl
  get-put_ne Kind.events Kind.events a r h = absurd (h refl)
