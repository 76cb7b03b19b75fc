-- ===== src/Release/Directory/Growth.antt =====
-- internal/release/directory_updates.go: programs that add entries to the
-- directory, and change none.
use mathlib.Core.Path.{subst}
use zenmind_official_server.Base.{
  ℕ, ◌≡◌, refl, sym, ap, ◌∙◌, ◌⊎◌, inl, inr, Option, none, some, arith, Bool-cases,
}
use zenmind_official_server.Text.{Text, text_eq}
use zenmind_official_server.Text.Laws.{text_eq_iff}
use zenmind_official_server.Dict.{lookup, insert}
use zenmind_official_server.Dict.Laws.{lookup-insert, lookup-insert_self}
use zenmind_official_server.Sqlite.{Conn}
use zenmind_official_server.Release.Feeds.{Outcome, ok, err}
use zenmind_official_server.Release.Directory.Files.{
  Act, Entry, regular, Root, ◌>>=◌, continue, pure, attempt, find, atomic_write, Temporary,
}
use zenmind_official_server.Release.Directory.Effects.{
  attempt-Keeps, IsTemp, IsWrite, atomic_write-IsWrite, err-shut,
}

-- A temporary file, of a write to any path.
abbrev pub IsLeftover : Text → Entry → Type 0
IsLeftover temp e = (path : Text) × IsTemp path temp e

-- Every entry of the first directory stands in the second one, where all others are of the given
-- kind, or temporary files.
pub record Grows (X : Text → Entry → Type 0) (r s : Root) : Type 0 where
  pub keeps : (path : Text) (e : Entry) → lookup path r ≡ some e → lookup path s ≡ some e
  pub adds :
      (path : Text) (e : Entry)
      → lookup path s ≡ some e
      → (lookup path r ≡ some e) ⊎ X path e ⊎ IsLeftover path e

Grows-refl : {X : Text → Entry → Type 0} (r : Root) → Grows X r r
Grows-refl r = record { keeps = λ path e h. h; adds = λ path e h. inl h }

Grows-trans : {X : Text → Entry → Type 0} {r s t : Root} → Grows X r s → Grows X s t → Grows X r t
Grows-trans {X = X} g h = record {
  keeps = λ path e x. h.keeps path e (g.keeps path e x);
  adds = λ path e x. elim (h.adds path e x) [ inl old ↦ g.adds path e old | inr new ↦ inr new ];
}

pub same-Grows : {X : Text → Entry → Type 0} {r s : Root} → s ≡ r → Grows X r s
same-Grows e = record {
  keeps = λ path x h. ap (lookup path) e ∙ h;
  adds = λ path x h. inl (ap (lookup path) (sym e) ∙ h);
}

found-inserted :
    (X : Text → Entry → Type 0) (path : Text) (e : Entry) (r : Root) (q : Text) (x : Entry)
    → X path e
    → lookup q (insert path e r) ≡ some x
    → (lookup q r ≡ some x) ⊎ X q x
found-inserted X path e r q x good h = elim (Bool-cases (text_eq path q)) [
  | inl same ↦
      let there = (rw (lookup-insert path q e r, same) at h) in
      let at : path ≡ q = ground (arith, text_eq_iff path q) in
      let is : e ≡ x = cc in inr (subst (λ y. X q y) is (subst (λ y. X y e) at good))
  | inr other ↦ inl (rw (lookup-insert path q e r, other) at h)
]

insert-Grows :
    {X : Text → Entry → Type 0} (path : Text) (e : Entry) (r : Root)
    → lookup path r ≡ none
    → X path e ⊎ IsLeftover path e
    → Grows X r (insert path e r)
insert-Grows {X} path e r h good = record {
  keeps = λ q x there. rw (lookup-insert path q e r) (ground (arith, text_eq_iff path q, h, there));
  adds = λ q x there. found-inserted (λ k y. X k y ⊎ IsLeftover k y) path e r q x good there;
}

abbrev pub after : {A : Type 0} → Act A → Conn Root → Root
after m c = (m c).1.tables

-- The program keeps every entry, and brings this about where it succeeds.
pub record Brings {A : Type 0} (X : Text → Entry → Type 0) (m : Act A) (c : Conn Root)
    (P : Root → Type 0) : Type 0 where
  pub grows : Grows X c.tables (after m c)
  pub brings : (a : A) → (m c).0 ≡ ok a → P (after m c)

pub done-Brings :
    {X : Text → Entry → Type 0} {A : Type 0} {P : Root → Type 0} (a : A) (c : Conn Root)
    → P c.tables
    → Brings X (pure (ok a)) c P
done-Brings a c p = record { grows = Grows-refl c.tables; brings = λ b h. p }

pub weaken-Brings :
    {X : Text → Entry → Type 0} {A : Type 0} {m : Act A} {c : Conn Root} {P : Root → Type 0}
    (Q : Root → Type 0)
    → Brings X m c P
    → ((s : Root) → Grows X c.tables s → P s → Q s)
    → Brings X m c Q
weaken-Brings {m = m} {c} Q b w = record {
  grows = b.grows;
  brings = λ a h. w (after m c) b.grows (b.brings a h);
}

continue-Brings :
    {X : Text → Entry → Type 0} {A B : Type 0} (r : Outcome A) (f : A → Act B) (c : Conn Root)
    (P : Root → Type 0)
    → ((a : A) → r ≡ ok a → Brings X (f a) c P)
    → Brings X (continue r f) c P
continue-Brings (ok a) f c P g = g a refl
continue-Brings (err e) f c P g = record {
  grows = Grows-refl c.tables;
  brings = λ b h. absurd (err-shut e b h);
}

-- A chain: what its first part has brought about holds where the second one starts.
pub then-Brings :
    {X : Text → Entry → Type 0} {A B : Type 0} {m : Act A} {f : A → Act B} {c : Conn Root}
    {P Q : Root → Type 0}
    → Brings X m c Q
    → ((a : A) (d : Conn Root) → Grows X c.tables d.tables → Q d.tables → Brings X (f a) d P)
    → Brings X (m >>= f) c P
unfolding ◌>>=◌
then-Brings {m = m} {f} {c} {P} b g =
    let rest = continue-Brings (m c).0 f (m c).1 P λ a h. g a (m c).1 b.grows (b.brings a h) in
    record { grows = Grows-trans b.grows rest.grows; brings = rest.brings }

pub attempt-Brings :
    {X : Text → Entry → Type 0} {B : Type 0} {f : Unit {0} → Act B} (c : Conn Root)
    {P : Root → Type 0}
    → ((u : Unit {0}) (d : Conn Root) → d.tables ≡ c.tables → Brings X (f u) d P)
    → Brings X (attempt >>= f) c P
attempt-Brings c g =
    then-Brings {Q = λ s. s ≡ c.tables}
      (record { grows = same-Grows (attempt-Keeps.at c); brings = λ a h. attempt-Keeps.at c })
      λ u d grown same. g u d same

pub find-Brings :
    {X : Text → Entry → Type 0} {B : Type 0} (path : Text) {f : Option Entry → Act B}
    (c : Conn Root) {P : Root → Type 0}
    → ((found : Option Entry) → lookup path c.tables ≡ found → Brings X (f found) c P)
    → Brings X (find path >>= f) c P
unfolding find ◌>>=◌
find-Brings path c g =
    let b = g (lookup path c.tables) refl in record { grows = b.grows; brings = b.brings }

pub pure-Brings :
    {X : Text → Entry → Type 0} {A B : Type 0} (r : Outcome A) {f : A → Act B} (c : Conn Root)
    {P : Root → Type 0}
    → ((a : A) → r ≡ ok a → Brings X (f a) c P)
    → Brings X (pure r >>= f) c P
unfolding ◌>>=◌
pure-Brings r {f} c {P} g =
    let b = continue-Brings r f c P g in record { grows = b.grows; brings = b.brings }

-- Something stands at the path.
abbrev pub Stands : Text → Root → Type 0
Stands path r = (e : Entry) × (lookup path r ≡ some e)

pub Stands-Grows :
    {X : Text → Entry → Type 0} (path : Text) (r s : Root)
    → Grows X r s
    → Stands path r
    → Stands path s
Stands-Grows path r s g (e, there) = (e, g.keeps path e there)

-- A write that does not succeed leaves the directory, or a temporary file in it.
left-Grows :
    {X : Text → Entry → Type 0} (path : Text) (r s : Root)
    → (s ≡ r)
      ⊎ ((temp : Text) × (part : Entry) × IsTemp path temp part
          × (lookup temp r ≡ none)
          × (s ≡ insert temp part r))
    → Grows X r s
left-Grows path r s (inl same) = same-Grows same
left-Grows path r s (inr (temp, part, (token, content, now, named, is), free, new)) =
    Grows-trans (insert-Grows temp part r free (inr (path, (token, content, now, named, is))))
      (same-Grows new)

new-Brings :
    {X : Text → Entry → Type 0} (m : Act (Unit {0})) (path : Text) (entry : Entry) (c : Conn Root)
    → lookup path c.tables ≡ none
    → X path entry
    → IsWrite path entry c.tables (m c).0 (m c).1.tables
    → Brings X m c (Stands path)
new-Brings m path entry c h good (inl new) = record {
  grows = Grows-trans (insert-Grows path entry c.tables h (inl good)) (same-Grows new);
  brings = λ a done. (entry, ap (lookup path) new ∙ lookup-insert_self path entry c.tables);
}
new-Brings m path entry c h good (inr ((e, failed), left)) = record {
  grows = left-Grows path c.tables (after m c) left;
  brings = λ a done. absurd (err-shut e a (sym failed ∙ done));
}

pub write_new-Brings :
    {X : Text → Entry → Type 0} (t : Temporary) (path content : Text) (now : ℕ) (c : Conn Root)
    → lookup path c.tables ≡ none
    → X path (regular content now)
    → Brings X (atomic_write t path content now) c (Stands path)
write_new-Brings t path content now c h good =
    new-Brings (atomic_write t path content now) path (regular content now) c h good
      (atomic_write-IsWrite t path content now c)

-- What stands in the first directory stands in the second one, the same or not.
pub record Covers (r s : Root) : Type 0 where
  pub covers : (path : Text) → Stands path r → Stands path s

pub Grows-Covers : {X : Text → Entry → Type 0} {r s : Root} → Grows X r s → Covers r s
Grows-Covers {r = r} {s} g = record { covers = λ path there. Stands-Grows path r s g there }

pub same-Covers : {r s : Root} → s ≡ r → Covers r s
same-Covers e = record { covers = λ path (x, there). (x, ap (lookup path) e ∙ there) }

pub insert-Covers : (path : Text) (e : Entry) (r : Root) → Covers r (insert path e r)
insert-Covers path e r = record {
  covers = λ q (x, there). elim (Bool-cases (text_eq path q)) [
    | inl same ↦ (e, rw (lookup-insert path q e r, same) refl)
    | inr other ↦ (x, rw (lookup-insert path q e r, other) there)
  ];
}

-- A file that is new at the end of a chain, whatever the chain has put at its path.
last-Grows :
    {X : Text → Entry → Type 0} (path : Text) (entry : Entry) (r s after : Root)
    (res : Outcome (Unit {0}))
    → lookup path r ≡ none
    → Grows X r s
    → X path entry
    → IsWrite path entry s res after
    → Grows X r after
last-Grows {X} path entry r s after res new g good (inr (failed, left)) =
    Grows-trans g (left-Grows path s after left)
last-Grows {X} path entry r s after res new g good (inl e) = record {
  keeps = λ q x there.
      ap (lookup q) e
      ∙ (rw (lookup-insert path q entry s)
          (ground (arith, text_eq_iff path q, new, there, g.keeps q x there)));
  adds = λ q x there.
      elim (found-inserted (λ k y. X k y ⊎ IsLeftover k y) path entry s q x (inl good)
        (ap (lookup q) (sym e) ∙ there)) [ inl old ↦ g.adds q x old | inr is ↦ inr is ];
}

pub written_last-Grows :
    {X : Text → Entry → Type 0} (t : Temporary) (path content : Text) (now : ℕ) (r : Root)
    (d : Conn Root)
    → lookup path r ≡ none
    → Grows X r d.tables
    → X path (regular content now)
    → Grows X r (after (atomic_write t path content now) d)
written_last-Grows t path content now r d new g good =
    last-Grows path (regular content now) r d.tables (after (atomic_write t path content now) d)
      (atomic_write t path content now d).0 new g good (atomic_write-IsWrite t path content now d)
