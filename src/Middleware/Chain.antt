-- ===== src/Middleware/Chain.antt =====
-- internal/middleware/chain.go: Chain and FastChain, over any kind of handler.
use load_balancer.Base.{
  ℕ, zero, suc, ◌≡◌, refl, ap, ◌∙◌, Option, none, some, List, [], ◌∷◌, length, get_elem?,
}

module _ {H : Type 0} where
  -- `h = mws[i](h)`; an index out of range would be a fault, and does not happen.
  abbrev pub wrap : Option (H → H) → H → H
  wrap none h = h
  wrap (some mw) h = mw h

  -- The loop, with `left` rounds to go: the next index is `left - 1`.
  unfoldable pub chain_from : ℕ → List (H → H) → H → H
  chain_from zero mws h = h
  chain_from (suc i) mws h = chain_from i mws (wrap (get_elem? mws i) h)

  unfoldable pub chain : H → List (H → H) → H
  unfolding chain_from
  chain h mws = chain_from (length mws) mws h

  -- The first of the list outermost.
  abbrev pub nest : List (H → H) → H → H
  nest [] h = h
  nest (mw ∷ mws) h = mw (nest mws h)

  chain_from-cons :
      (i : ℕ) (mw : H → H) (mws : List (H → H)) (h : H)
      → chain_from (suc i) (mw ∷ mws) h ≡ mw (chain_from i mws h)
  unfolding chain_from
  chain_from-cons zero mw mws h = refl
  chain_from-cons (suc i) mw mws h = chain_from-cons i mw mws (wrap (get_elem? mws i) h)

  -- The loop over the indices from the last to the first nests the middlewares in the order of the
  -- list, the first outermost.
  pub chain-nest : (h : H) (mws : List (H → H)) → chain h mws ≡ nest mws h
  unfolding chain chain_from
  chain-nest h [] = refl
  chain-nest h (mw ∷ mws) = chain_from-cons (length mws) mw mws h ∙ ap mw (chain-nest h mws)
