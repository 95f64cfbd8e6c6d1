-- ===== src/Trader/Listing.antt =====
-- What the queries of the trader give.
use fatcrab_trading.Base.{
  ⊤, Bool, true, false, Option, none, some, List, [], ◌∷◌, ◌&&◌, ◌≡◌, ◌≢◌, ◌⊎◌, refl, subst, sym,
  arith, inl, inr, Bool-cases, if◌then◌else◌,
}
use fatcrab_trading.Base.Dict.{Uuid, Dict, get, insert, HasDistinctKeys, get-insert, or_else}
use fatcrab_trading.Action.{Result, Result-cases, ok, err, Outcome, ret, raise, panic}
use fatcrab_trading.Error.{ExternalError, n3xb}
use fatcrab_trading.Common.{Network, Float}
use fatcrab_trading.N3xb.{OrderEnvelope, N3xbOrder, BitcoinNetwork}
use fatcrab_trading.Order.{
  FatCrabOrder, FatCrabOrderType, FatCrabOrderEnvelope, from_n3xb_order, into, n3xb_network,
}
use fatcrab_trading.Order.RoundTrip.{read_back, from_n3xb_order-into}
use fatcrab_trading.Trader.{FatCrabTrader}
use fatcrab_trading.Trader.Queries.{
  collect, not_of, is_buy_maker, is_buy_taker, get_buy_makers, get_sell_makers, get_buy_takers,
  get_sell_takers, FilterTag, maker_obligations, taker_obligations, filter_tags, read_orders,
  query_orders,
}

abbrev wanted : {V : Type 0} → (V → Bool) → Option V → Option V
wanted f none = none
wanted f (some v) = if f v then some v else none

get-collect :
    {V : Type 0} (is_wanted : V → Bool) (j : Uuid) (d found : Dict V)
    → HasDistinctKeys d
    → get j (collect is_wanted d found) ≡ or_else (wanted is_wanted (get j d)) (get j found)
unfolding collect
get-collect is_wanted j [] found h = refl
get-collect is_wanted j ((k, v) ∷ d) found h = elim (Bool-cases (is_wanted v)) [
  | inl e ↦ ground (arith, get-collect is_wanted j d (insert k v found) h.1, get-insert j k v found)
  | inr e ↦ ground (arith, get-collect is_wanted j d found h.1)
]

-- Each trade is in one of two maps, and under its own id.
abbrev pub IsSplit : {V : Type 0} → Option V → Option V → Option V → Type 0
IsSplit o none none = o ≡ none
IsSplit o (some v) none = o ≡ some v
IsSplit o none (some v) = o ≡ some v
IsSplit o (some v) (some w) = ⊥

pub getters-IsSplit :
    (t : FatCrabTrader) (j : Uuid)
    → HasDistinctKeys t.makers
    → HasDistinctKeys t.takers
    → IsSplit (get j t.makers) (get j (get_buy_makers t)) (get j (get_sell_makers t))
      × IsSplit (get j t.takers) (get j (get_buy_takers t)) (get j (get_sell_takers t))
getters-IsSplit t j dm dt = ground (
  arith,
  get-collect is_buy_maker j t.makers [] dm,
  get-collect (not_of is_buy_maker) j t.makers [] dm,
  get-collect is_buy_taker j t.takers [] dt,
  get-collect (not_of is_buy_taker) j t.takers [] dt,
)

module _ {S : Type 0} (f : Float) (network : Network) (s : S) where
  -- The order of a message, with its sender.
  abbrev pub IsRead : OrderEnvelope → FatCrabOrderEnvelope → Type 0
  IsRead e o =
      (from_n3xb_order f e.order network s ≡ ret o.order s)
      × (o.pubkey ≡ e.pubkey)
      × (o.envelope ≡ e)

  abbrev pub AreRead : List OrderEnvelope → List FatCrabOrderEnvelope → Type 0
  AreRead [] [] = ⊤
  AreRead (e ∷ es) (o ∷ os) = IsRead e o × AreRead es os
  AreRead _ _ = ⊥

  abbrev is_ret : {A : Type 0} → Outcome S A → Bool
  is_ret (ret a t) = true
  is_ret (raise e t) = false
  is_ret (panic t) = false

  abbrev pub are_readable : List OrderEnvelope → Bool
  are_readable [] = true
  are_readable (e ∷ es) = is_ret (from_n3xb_order f e.order network s) && are_readable es

  abbrev pub Lists : List OrderEnvelope → Outcome S (List FatCrabOrderEnvelope) → Type 0
  Lists es (ret os t) = (t ≡ s) × AreRead es os
  Lists es (raise e t) = ⊥
  Lists es (panic t) = (t ≡ s) × (are_readable es ≡ false)

  abbrev Rests : {A : Type 0} → Outcome S A → Type 0
  Rests (ret a t) = t ≡ s
  Rests (raise e t) = t ≡ s
  Rests (panic t) = t ≡ s

  from_n3xb_order-Rests : (order : N3xbOrder) → Rests (from_n3xb_order f order network s)
  unfolding from_n3xb_order
  from_n3xb_order-Rests order = ground arith

  read_orders-Lists : (es : List OrderEnvelope) → Lists es (read_orders f network es s)
  unfolding read_orders
  read_orders-Lists [] = (refl, tt)
  read_orders-Lists (e ∷ es) = ground (arith, from_n3xb_order-Rests e.order, read_orders-Lists es)

  -- By the answer of the n3xb manager.
  abbrev pub Answers :
      Result (List OrderEnvelope) ExternalError → Outcome S (List FatCrabOrderEnvelope) → Type 0
  Answers (ok es) o = Lists es o
  Answers (err e) o = o ≡ raise (n3xb e) s

  -- A query of orders lists, for each n3xb order that the manager answers with, the order that is read
  -- from it and its sender, in the same order. If one of them cannot be read, the query panics. An error
  -- of the manager is the query's. This is for a network that the n3xb crate knows.
  pub query_orders-Answers :
      (answer : List FilterTag → Result (List OrderEnvelope) ExternalError)
      (order_type : Option FatCrabOrderType) {name : BitcoinNetwork}
      → n3xb_network network ≡ some name
      → Answers (answer (filter_tags name order_type)) (query_orders f network answer order_type s)
  unfolding query_orders
  query_orders-Answers answer order_type {name} known =
      elim (Result-cases (answer (filter_tags name order_type))) [
        | inl (es, e) ↦ ground (arith, read_orders-Lists es)
        | inr (x, e) ↦ ground arith
      ]

-- The tags of an n3xb order.
abbrev pub tags_of : N3xbOrder → List FilterTag
tags_of order =
    maker_obligations order.maker_obligation.kinds
    ∷ taker_obligations order.taker_obligation.kinds
    ∷ []

abbrev pub Has : {A : Type 0} → A → List A → Type 0
Has x [] = ⊥
Has x (y ∷ ys) = (x ≡ y) ⊎ Has x ys

-- The order that is read from a message.
abbrev pub found : Float → FatCrabOrder → OrderEnvelope → FatCrabOrderEnvelope
found f o e = record { order = read_back f o.order_type o; pubkey = e.pubkey; envelope = e }

module _ (f : Float) (o : FatCrabOrder) (posted : OrderEnvelope) where
  IsRead-found :
      (x : FatCrabOrderEnvelope)
      → from_n3xb_order f posted.order o.network tt ≡ ret (read_back f o.order_type o) tt
      → IsRead f o.network tt posted x
      → found f o posted ≡ x
  IsRead-found x reads is = ground (arith, reads, is.0, is.1, is.2)

  AreRead-Has :
      (es : List OrderEnvelope) (os : List FatCrabOrderEnvelope)
      → from_n3xb_order f posted.order o.network tt ≡ ret (read_back f o.order_type o) tt
      → Has posted es
      → AreRead f o.network tt es os
      → Has (found f o posted) os
  AreRead-Has [] os reads h are = absurd h
  AreRead-Has (e ∷ es) [] reads h are = absurd are
  AreRead-Has (e ∷ es) (x ∷ os) reads (inl is) are =
      inl (IsRead-found x reads (subst (λ m. IsRead f o.network tt m x) (sym is) are.0))
  AreRead-Has (e ∷ es) (x ∷ os) reads (inr h) are = inr (AreRead-Has es os reads h are.1)

  abbrev pub Finds : List OrderEnvelope → Outcome ⊤ (List FatCrabOrderEnvelope) → Type 0
  Finds es (ret os t) = Has (found f o posted) os
  Finds es (raise e t) = ⊥
  Finds es (panic t) = are_readable f o.network tt es ≡ false

  Lists-Finds :
      (es : List OrderEnvelope) (r : Outcome ⊤ (List FatCrabOrderEnvelope))
      → from_n3xb_order f posted.order o.network tt ≡ ret (read_back f o.order_type o) tt
      → Has posted es
      → Lists f o.network tt es r
      → Finds es r
  Lists-Finds es (ret os t) reads h lists = AreRead-Has es os reads h lists.1
  Lists-Finds es (raise e t) reads h lists = absurd lists
  Lists-Finds es (panic t) reads h lists = lists.1

  reads_back :
      o.network ≢ Network.other
      → into f o tt ≡ ret posted.order tt
      → from_n3xb_order f posted.order o.network tt ≡ ret (read_back f o.order_type o) tt
  reads_back known made = ground (arith, from_n3xb_order-into f o tt known)

  -- An order that was posted on a network with an n3xb name, among whatever else the n3xb manager answers, is
  -- found by a query for its type on the same network, and read back, unless the query panics because
  -- an order of the answer cannot be read. The tags that the query filters for are those of the posted
  -- order's two obligations, under which the manager is taken to have it in its answer.
  pub query_orders-Finds :
      (answer : List FilterTag → Result (List OrderEnvelope) ExternalError)
      (es : List OrderEnvelope)
      → o.network ≢ Network.other
      → into f o tt ≡ ret posted.order tt
      → answer (tags_of posted.order) ≡ ok es
      → Has posted es
      → Finds es (query_orders f o.network answer (some o.order_type) tt)
  unfolding query_orders filter_tags into n3xb_network
  query_orders-Finds answer es known made listed has = ground (
    arith,
    Lists-Finds es (read_orders f o.network es tt) (reads_back known made) has
        (read_orders-Lists f o.network tt es),
  )
