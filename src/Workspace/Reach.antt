-- ===== src/Workspace/Reach.antt =====
-- apps/web/src/operator/navigation.ts: where `destination` leads.
use Prim.Native.String.{◌++◌ as ◌+s◌}
use montlok_terminal.Prelude.{
  String, ◌≡◌, refl, ◌⊎◌, inl, inr, Bool, true, false, some, if◌then◌else◌, is_some, Option-cases,
  arith,
}
use montlok_terminal.Workspace.Navigation.{page_for}
use montlok_terminal.Workspace.Destination.{
  Item, market_destination, news_destination, product_of, product_page, finance_destination,
  prices_destination, account_destination, service_destination, strategy_destination, destination,
}

-- A registered page, or one of the two paths of the trade section that have none.
pub data Lands (d : String) : Type 0 where
  page : is_some (page_for d) ≡ true → Lands d
  spot_positions : d ≡ "/trade/spot/positions" → is_some (page_for d) ≡ false → Lands d
  event_algo : d ≡ "/trade/event/algo" → is_some (page_for d) ≡ false → Lands d

if-Lands : (b : Bool) (x y : String) → Lands x → Lands y → Lands (if b then x else y)
if-Lands true x y p q = p
if-Lands false x y p q = q

if_elim : (P : String → Type 0) (b : Bool) (x y : String) → P x → P y → P (if b then x else y)
if_elim P true x y p q = p
if_elim P false x y p q = q

product_cases :
    (name product : String)
    → product_of name ≡ some product
    → (product ≡ "spot")
      ⊎ (product ≡ "swap")
      ⊎ (product ≡ "futures")
      ⊎ (product ≡ "option")
      ⊎ (product ≡ "event")
unfolding product_of
product_cases name product h = ground arith

market-Lands : (name : String) → Lands (market_destination name)
unfolding market_destination page_for
market-Lands name = search (if-Lands, page) depth 20

account-Lands : (path both : String) → Lands (account_destination path both)
unfolding account_destination page_for
account-Lands path both = search (if-Lands, page) depth 30

news-Lands : (name : String) → Lands (news_destination name)
unfolding news_destination page_for
news-Lands name = search (if-Lands, page) depth 10

finance-Lands : (path : String) → Lands (finance_destination path)
unfolding finance_destination page_for
finance-Lands path = search (if-Lands, page) depth 10

prices-Lands : (path : String) → Lands (prices_destination path)
unfolding prices_destination page_for
prices-Lands path = search (if-Lands, page) depth 10

service-Lands : (name path both : String) → Lands (service_destination name path both)
unfolding service_destination page_for
service-Lands name path both = search (if-Lands, page, prices-Lands, account-Lands) depth 40

strategy-Lands : (name path both : String) → Lands (strategy_destination name path both)
unfolding strategy_destination page_for
strategy-Lands name path both = search (if-Lands, page, finance-Lands, service-Lands) depth 40

product_page_elim :
    (P : String → Type 0) (name : String)
    → P "positions"
    → P "algo"
    → P "fills"
    → P "orders"
    → P (product_page name)
unfolding product_page
product_page_elim P name a b c d = if_elim P _ _ _ a (if_elim P _ _ _ b (if_elim P _ _ _ c d))

abbrev trade_path : String → String → String
trade_path product slug = "/trade/" +s product +s "/" +s slug

trade-Lands :
    (name product : String)
    → product_of name ≡ some product
    → Lands (trade_path product (product_page name))
unfolding product_of page_for
trade-Lands name product h = elim (product_cases name product h) [
  | inl q ↦ rw q (
      product_page_elim (λ p. Lands (trade_path "spot" p)) name (spot_positions refl refl)
        (page refl) (page refl) (page refl))
  | inr (inl q) ↦ rw q (
      product_page_elim (λ p. Lands (trade_path "swap" p)) name (page refl) (page refl) (page refl)
        (page refl))
  | inr (inr (inl q)) ↦ rw q (
      product_page_elim (λ p. Lands (trade_path "futures" p)) name (page refl) (page refl)
        (page refl) (page refl))
  | inr (inr (inr (inl q))) ↦ rw q (
      product_page_elim (λ p. Lands (trade_path "option" p)) name (page refl) (page refl)
        (page refl) (page refl))
  | inr (inr (inr (inr q))) ↦ rw q (
      product_page_elim (λ p. Lands (trade_path "event" p)) name (page refl) (event_algo refl refl)
        (page refl) (page refl))
]

-- The page of an API entry is registered in the navigation, whatever its name and path are, except
-- that a spot entry may lead to `/trade/spot/positions` and an event entry to `/trade/event/algo`,
-- and neither of these two is a page.
pub destination-Lands : (item : Item) → Lands (destination item)
unfolding destination page_for
destination-Lands item = elim (Option-cases (product_of item.name)) [
  | inl q ↦ rw q (search (if-Lands, page, market-Lands, news-Lands, strategy-Lands) depth 12)
  | inr (product, q) ↦
      let lands = trade-Lands item.name product q in
      rw q (search (if-Lands, page, market-Lands, news-Lands, lands) depth 12)
]
