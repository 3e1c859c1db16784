-- ===== src/Chat/Gateway/Quota.antt =====
-- The gateway and the quotas in memory, without Redis: what a reconnect does to them.
use recruitment_platform_be.Prelude.{
  ℕ, ◌≡◌, true, false, some, List, arith, ap, ◌∙◌, ◌⊎◌, if◌then◌else◌, Bool-cases, inl, inr, ==_iff,
}
use recruitment_platform_be.Chat.Entity.{Conversation}
use recruitment_platform_be.Chat.Presence.{remove_socket}
use recruitment_platform_be.Chat.RateLimiter.{
  Limiter, consume_in_memory, consume_send_quota, consume_read_quota, clear_in_memory_quota,
}
use recruitment_platform_be.Chat.Gateway.{Gateway, handle_connection, handle_disconnect}

cleared_allows :
    (u now : ℕ) (limiter : Limiter)
    → ((consume_send_quota u now (clear_in_memory_quota u limiter)).0 ≡ true)
      × ((consume_read_quota u now (clear_in_memory_quota u limiter)).0 ≡ true)
unfolding consume_send_quota consume_read_quota consume_in_memory clear_in_memory_quota
cleared_allows u now limiter = (ground (arith, ==_iff u u), ground (arith, ==_iff u u))

module _ {S : Type 0} (find_many_for_user : (user_id : ℕ) → S → List Conversation) where
  disconnect_limiter :
      (u old : ℕ) (g : Gateway S)
      → (handle_disconnect find_many_for_user (some u) old g).limiter ≡ (
          if (remove_socket u old g.presence).0
          then clear_in_memory_quota u g.limiter
          else g.limiter)
  unfolding handle_disconnect
  disconnect_limiter u old g = ground arith

  connection_limiter :
      (u new : ℕ) (g : Gateway S)
      → (handle_connection find_many_for_user (some u) new g).limiter ≡ g.limiter
  unfolding handle_connection
  connection_limiter u new g = ground arith

  -- Without Redis, where the limiter keeps its quotas in memory: when a user closes the only
  -- connection and connects again, these quotas are cleared, and the next send and the next read are
  -- let through, however many came before. When another connection of the user stays open, they stay
  -- as they are.
  pub reconnect_resets :
      (u old new now : ℕ) (g : Gateway S)
      → let gone = handle_disconnect find_many_for_user (some u) old g in
        let back = handle_connection find_many_for_user (some u) new gone in
        let closed = (remove_socket u old g.presence).0 in
        ((closed ≡ true)
          × ((consume_send_quota u now back.limiter).0 ≡ true)
          × ((consume_read_quota u now back.limiter).0 ≡ true))
        ⊎ ((closed ≡ false) × (back.limiter ≡ g.limiter))
  reconnect_resets u old new now g = elim (Bool-cases (remove_socket u old g.presence).0) [
    | inl closed ↦
        let gone = handle_disconnect find_many_for_user (some u) old g in
        let cleared =
          connection_limiter u new gone
          ∙ disconnect_limiter u old g
          ∙ ap (λ b. if b then clear_in_memory_quota u g.limiter else g.limiter) closed in
        let fresh = cleared_allows u now g.limiter in
        inl (closed, rw cleared fresh.0, rw cleared fresh.1)
    | inr kept ↦
        let gone = handle_disconnect find_many_for_user (some u) old g in
        inr (
          kept,
          connection_limiter u new gone
              ∙ disconnect_limiter u old g
              ∙ ap (λ b. if b then clear_in_memory_quota u g.limiter else g.limiter) kept,
        )
  ]
