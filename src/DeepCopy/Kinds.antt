-- ===== src/DeepCopy/Kinds.antt =====
-- What a deep copy is: it looks the same, the original looks as before, and all that it points at is
-- new. One rule for each way to build a copy.
use capi_noplane.Prelude.{ℕ, ◌≤◌, ◌<◌, ◌≡◌, ◌∙◌, ap, arith}
use capi_noplane.DeepCopy.Memory.{Memory}

module _ {F : Type 0} (K A : Type 0) (Later : F → F → Type 0) where
  -- The memory `m'` has what `m` had, and perhaps more.
  pub record Extends (m m' : Memory F K A) : Type 0 where
    pub grown : m.next ≤ m'.next
    pub ints : (a : ℕ) → a < m.next → m'.ints a ≡ m.ints a
    pub conditions : (a : ℕ) → a < m.next → m'.conditions a ≡ m.conditions a
    pub items : (a : ℕ) → a < m.next → m'.items a ≡ m.items a
    pub foreign : Later m.foreign m'.foreign

  pub Extends-trans :
      ((f g h : F) → Later f g → Later g h → Later f h)
      → {m m' m'' : Memory F K A} → Extends m m'
      → Extends m' m''
      → Extends m m''
  Extends-trans trans e e' = record {
    grown = omega arith;
    ints = λ a lt. e'.ints a (omega arith) ∙ e.ints a lt;
    conditions = λ a lt. e'.conditions a (omega arith) ∙ e.conditions a lt;
    items = λ a lt. e'.items a (omega arith) ∙ e.items a lt;
    foreign = trans _ _ _ e.foreign e'.foreign;
  }

  -- How values of a type look in a memory, when they point at what is there, and when at nothing that
  -- a memory before had.
  pub record Kind (X V : Type 0) : Type 1 where
    pub view : Memory F K A → X → V
    pub Valid : Memory F K A → X → Type 0
    pub Fresh : Memory F K A → Memory F K A → X → Type 0
    pub stable :
        (m m' : Memory F K A) (x : X)
        → Extends m m'
        → Valid m x
        → (view m' x ≡ view m x) × Valid m' x
    pub still :
        (b m m' : Memory F K A) (x : X) → Extends m m' → Valid m x → Fresh b m x → Fresh b m' x
    pub lower : (b b' m : Memory F K A) (x : X) → Extends b b' → Fresh b' m x → Fresh b m x

  pub record IsDeepCopy {X V : Type 0} (k : Kind X V) (m : Memory F K A) (x : X)
      (copied : X × Memory F K A) : Type 0 where
    pub extends : Extends m copied.1
    pub same : k.view copied.1 copied.0 ≡ k.view m x
    pub valid : k.Valid copied.1 copied.0
    pub fresh : k.Fresh m copied.1 copied.0

  pub record Copies {X V : Type 0} (k : Kind X V) (copy : X → Memory F K A → X × Memory F K A)
      : Type 0 where
    pub at : (x : X) (m : Memory F K A) → k.Valid m x → IsDeepCopy k m x (copy x m)

  module _ {X Y V U : Type 0} (k : Kind X V) (l : Kind Y U) where
    abbrev pub Pair : Kind (X × Y) (V × U)
    Pair = record {
      view = λ m (x, y). (k.view m x, l.view m y);
      Valid = λ m (x, y). k.Valid m x × l.Valid m y;
      Fresh = λ b m (x, y). k.Fresh b m x × l.Fresh b m y;
      stable = λ m m' (x, y) e (v, w).
          let (sx, vx) = k.stable m m' x e v in
          let (sy, vy) = l.stable m m' y e w in
          (ap (λ p. (p, l.view m' y)) sx ∙ ap (λ q. (k.view m x, q)) sy, (vx, vy));
      still = λ b m m' (x, y) e (v, w) (f, g). (k.still b m m' x e v f, l.still b m m' y e w g);
      lower = λ b b' m (x, y) e (f, g). (k.lower b b' m x e f, l.lower b b' m y e g);
    }

    abbrev pub copy_pair :
        (X → Memory F K A → X × Memory F K A)
        → (Y → Memory F K A → Y × Memory F K A)
        → X × Y
        → Memory F K A
        → (X × Y) × Memory F K A
    copy_pair c d (x, y) m = let (x', m') = c x m in let (y', m'') = d y m' in ((x', y'), m'')

    pub pair-Copies :
        ((f g h : F) → Later f g → Later g h → Later f h)
        → {c : X → Memory F K A → X × Memory F K A} {d : Y → Memory F K A → Y × Memory F K A}
        → Copies k c
        → Copies l d
        → Copies Pair (copy_pair c d)
    pair-Copies trans {c} {d} ck dl = record {
      at = λ (x, y) m (v, w).
          let (x', m') = c x m in
          let one = ck.at x m v in
          let two = dl.at y m' (l.stable m m' y one.extends w).1 in
          let (sx, vx) = k.stable m' (d y m').1 x' two.extends one.valid in
          record {
            extends = Extends-trans trans one.extends two.extends;
            same =
                ap (λ p. (p, l.view (d y m').1 (d y m').0)) (sx ∙ one.same)
                ∙ ap (λ q. (k.view m x, q)) (two.same ∙ (l.stable m m' y one.extends w).0);
            valid = (vx, two.valid);
            fresh = (
              k.still m m' (d y m').1 x' two.extends one.valid one.fresh,
              l.lower m m' (d y m').1 (d y m').0 one.extends two.fresh,
            );
          };
    }
