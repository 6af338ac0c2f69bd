-- ===== src/Gateway/OrderGateway/Symbols.antt =====
-- The one symbol that the gateway resolves.
use sixchange.Base.{
  ℕ, ◌≡◌, ◌≢◌, ap, sym, ◌∙◌, inl, inr, none, some, Bool-cases, Bytes, codes, same, same→eq,
}
use sixchange.Gateway.OrderGateway.{resolve_symbol}

pub resolve_symbol-some :
    (symbol : Bytes) (id : ℕ) → resolve_symbol symbol ≡ some id → (symbol ≡ codes "AAPL") × (id ≡ 0)
unfolding resolve_symbol
resolve_symbol-some symbol id = elim (Bool-cases (same symbol (codes "AAPL"))) [
  | inl is ↦ rw is (λ e. (same→eq symbol (codes "AAPL") is, cc))
  | inr ne ↦ rw ne (λ e. cc)
]

pub resolve_symbol-none : (symbol : Bytes) → resolve_symbol symbol ≡ none → symbol ≢ codes "AAPL"
unfolding resolve_symbol
resolve_symbol-none symbol e is = known (ap (λ s. resolve_symbol s) (sym is) ∙ e)
  where
    known : resolve_symbol (codes "AAPL") ≡ none → ⊥
    known h = cc
