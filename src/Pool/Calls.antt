-- ===== src/Pool/Calls.antt =====
-- The calls in flight on the slots (`begin`, `end`) in provider.go.
use onegw.Prelude.{ℕ, suc, ◌-◌, none, some, get_elem?}
use onegw.Pool.{Account, AccountPool, slot}
use onegw.Pool.Next.{update_nth}

-- The pool and the slot's new depth.
unfoldable pub begin_call : AccountPool → Account → AccountPool × ℕ
begin_call p a = elim (slot a p.accts) [
  | none ↦ (p, 0)
  | some i ↦ (
    record p { accts = update_nth i (λ s. record s { live = suc s.live }) p.accts },
    elim (get_elem? p.accts i) [ none ↦ 0 | some s ↦ suc s.live ],
  )
]

-- A slot never falls below no call.
unfoldable pub end_call : AccountPool → Account → AccountPool
end_call p a = elim (slot a p.accts) [
  | none ↦ p
  | some i ↦ record p { accts = update_nth i (λ s. record s { live = s.live - 1 }) p.accts }
]
