-- ===== src/Marketplace/Lines.antt =====
-- app/marketplace/services.py: the lines of an order and its items.
use retail_iq.Base.{
  ℕ, suc, ◌+◌, ◌≡◌, refl, ap, subst, ◌∙◌, ◌⊎◌, true, none, some, List, [], ◌∷◌, arith, ◌==◌, length,
  All, Any, Option-cases, inl, inr,
}
use retail_iq.Base.Int.{ℤ, pos, pos_part, neg_part, ◌+ℤ◌, ◌*ℤ◌, int_laws}
use retail_iq.Base.Keys.{find_first-test}
use retail_iq.Marketplace.Models.{CatalogItem, MarketplacePoItem, Db, Line}
use retail_iq.Marketplace.Orders.{find_item, quantity_of, po_item, Priced, price_items}

abbrev pub sum_of : List MarketplacePoItem → ℤ
sum_of [] = pos 0
sum_of (i ∷ is) = i.subtotal +ℤ sum_of is

-- The item has its price from the catalogue.
abbrev pub IsPriced : Db → MarketplacePoItem → Type 0
IsPriced db i =
    (i.subtotal ≡ i.quantity *ℤ i.unit_price)
    × ((c : CatalogItem) × (find_item i.catalog_item_id db ≡ some c)
        × (i.unit_price ≡ c.unit_price))

-- The quantity that a line asks for; a missing one is one.
abbrev AsksFor : Line → ℤ → Type 0
AsksFor l q = (l.quantity ≡ some q) ⊎ ((l.quantity ≡ none) × (q ≡ pos 1))

abbrev IsFor : Line → MarketplacePoItem → Type 0
IsFor l i = (l.catalog_item_id ≡ i.catalog_item_id) × AsksFor l i.quantity

-- One of the items has what the line names, in the quantity that it asks for.
abbrev pub IsOrdered : List MarketplacePoItem → Line → Type 0
IsOrdered items l = Any (IsFor l) items

-- A line names an item that the catalogue does not have.
abbrev pub IsMissing : Db → Line → Type 0
IsMissing db l = find_item l.catalog_item_id db ≡ none

abbrev pub Counted : Db → List Line → ℕ → Priced → Type 0
Counted db lines n (Priced.missing i) = Any (IsMissing db) lines
Counted db lines n (Priced.priced subtotal items) =
    (length items ≡ length lines + n) × (subtotal ≡ sum_of items) × All (IsPriced db) items

one_further : (n k : ℕ) → n + suc k ≡ suc n + k
one_further n k = omega arith

same_id : (i : ℕ) (c : CatalogItem) → (c.id == i) ≡ true → i ≡ c.id
same_id i c h = ground arith

more_lines :
    (db : Db) (l : Line) (ls : List Line) (n : ℕ) (r : Priced)
    → Counted db ls (suc n) r
    → Counted db (l ∷ ls) n r
more_lines db l ls n (Priced.missing i) h = inr h
more_lines db l ls n (Priced.priced s items) (c, s_eq, good) =
    (c ∙ one_further (length ls) n, s_eq, good)

pub price_items-Counted :
    (db : Db) (ls : List Line) (s : ℤ) (items : List MarketplacePoItem)
    → s ≡ sum_of items
    → All (IsPriced db) items
    → Counted db ls (length items) (price_items db ls s items)
unfolding price_items
price_items-Counted db [] s items e good = (none_more (length items), e, good)
  where
    none_more : (n : ℕ) → n ≡ 0 + n
    none_more n = omega arith
price_items-Counted db (l ∷ ls) s items e good =
    elim (Option-cases (find_item l.catalog_item_id db)) [
      | inl f ↦ rw (f, price_items) (inl f)
      | inr (c, f) ↦
          let found : find_item c.id db ≡ some c =
            subst (λ i. find_item i db ≡ some c)
              (same_id l.catalog_item_id c
                (find_first-test (λ x. x.id == l.catalog_item_id) db.catalog f))
              f in
          let next = quantity_of l *ℤ c.unit_price in
          rw (f, price_items)
            (more_lines db l ls (length items) (price_items db ls (s +ℤ next) (po_item l c ∷ items))
              (price_items-Counted db ls (s +ℤ next) (po_item l c ∷ items)
                (turned s next (sum_of items) e) ((refl, (c, found, refl)), good)))
    ]
  where
    turned : (s x t : ℤ) → s ≡ t → s +ℤ x ≡ x +ℤ t
    turned s x t e = omega (int_laws, ap pos_part e, ap neg_part e)

abbrev Keeps : (MarketplacePoItem → Type 0) → List MarketplacePoItem → Priced → Type 0
Keeps P items (Priced.missing i) = Unit {0}
Keeps P items (Priced.priced s after) = Any P items → Any P after

Keeps-fewer :
    (P : MarketplacePoItem → Type 0) (x : MarketplacePoItem) (items : List MarketplacePoItem)
    (r : Priced)
    → Keeps P (x ∷ items) r
    → Keeps P items r
Keeps-fewer P x items (Priced.missing i) h = tt
Keeps-fewer P x items (Priced.priced s after) h = λ a. h (inr a)

price_items-Keeps :
    (P : MarketplacePoItem → Type 0) (db : Db) (ls : List Line) (s : ℤ)
    (items : List MarketplacePoItem)
    → Keeps P items (price_items db ls s items)
unfolding price_items
price_items-Keeps P db [] s items = λ a. a
price_items-Keeps P db (l ∷ ls) s items = elim (Option-cases (find_item l.catalog_item_id db)) [
  | inl f ↦ rw (f, price_items) tt
  | inr (c, f) ↦
      let next = s +ℤ quantity_of l *ℤ c.unit_price in
      rw (f, price_items)
        (Keeps-fewer P (po_item l c) items (price_items db ls next (po_item l c ∷ items))
          (price_items-Keeps P db ls next (po_item l c ∷ items)))
]

abbrev pub Ordered : List Line → Priced → Type 0
Ordered lines (Priced.missing i) = Unit {0}
Ordered lines (Priced.priced s items) = All (IsOrdered items) lines

Ordered-more :
    (l : Line) (ls : List Line) (x : MarketplacePoItem) (items : List MarketplacePoItem)
    (r : Priced)
    → IsFor l x
    → Keeps (IsFor l) (x ∷ items) r
    → Ordered ls r
    → Ordered (l ∷ ls) r
Ordered-more l ls x items (Priced.missing i) own keeps h = tt
Ordered-more l ls x items (Priced.priced s after) own keeps h = (keeps (inl own), h)

asked : (l : Line) → AsksFor l (quantity_of l)
asked l = elim (Option-cases l.quantity) [
  | inl e ↦ inr (e, rw (e, quantity_of) refl)
  | inr (q, e) ↦ inl (rw (e, quantity_of) refl)
]

pub price_items-Ordered :
    (db : Db) (ls : List Line) (s : ℤ) (items : List MarketplacePoItem)
    → Ordered ls (price_items db ls s items)
unfolding price_items
price_items-Ordered db [] s items = tt
price_items-Ordered db (l ∷ ls) s items = elim (Option-cases (find_item l.catalog_item_id db)) [
  | inl f ↦ rw (f, price_items) tt
  | inr (c, f) ↦
      let next = s +ℤ quantity_of l *ℤ c.unit_price in
      let same =
        same_id l.catalog_item_id c
          (find_first-test (λ x. x.id == l.catalog_item_id) db.catalog f) in
      rw (f, price_items)
        (Ordered-more l ls (po_item l c) items (price_items db ls next (po_item l c ∷ items))
          (same, asked l) (price_items-Keeps (IsFor l) db ls next (po_item l c ∷ items))
          (price_items-Ordered db ls next (po_item l c ∷ items)))
]
