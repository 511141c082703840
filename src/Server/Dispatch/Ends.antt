-- ===== src/Server/Dispatch/Ends.antt =====
-- What holds of every ending of an action, by rules for its parts.
use push_server.Base.{Bool, true, false, Option, none, some, ◌≡◌, ap, subst, if◌then◌else◌}
use push_server.Redis.{Redis}
use push_server.Redis.Conn.{Conn, M, pure, ◌>>=◌}

module _ {R : Redis} {A : Type 0} (P : A → Type 0) where
  -- Whatever it starts from, if the action returns then `P` holds of what it returns.
  abbrev pub Ends : M R A → Type 0
  Ends m = (s t : Conn R) (a : A) → m s ≡ some (a, t) → P a

  value : A → Option (A × Conn R) → A
  value a none = a
  value a (some (b, t)) = b

  pub Ends-pure : (a : A) → P a → Ends (pure a)
  unfolding value
  Ends-pure a p s t b e = subst P (ap (value a) e) p

  Ends-after :
      {B : Type 0} (k : B → M R A) (o : Option (B × Conn R)) (t : Conn R) (a : A)
      → ((b : B) → Ends (k b))
      → elim o [ none ↦ none | some (b, s') ↦ k b s' ] ≡ some (a, t)
      → P a
  Ends-after k none t a h e = cc
  Ends-after k (some (b, s')) t a h e = h b s' t a e

  pub Ends-bind : {B : Type 0} (m : M R B) (k : B → M R A) → ((b : B) → Ends (k b)) → Ends (m >>= k)
  Ends-bind m k h s t a e = Ends-after k (m s) t a h e

  pub Ends-if : (b : Bool) (m k : M R A) → Ends m → Ends k → Ends (if b then m else k)
  Ends-if true m k h g = h
  Ends-if false m k h g = g
