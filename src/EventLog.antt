-- ===== src/EventLog.antt =====
-- internal/eventlog/log.go: the ring buffer of recent events. Each method holds the mutex.
pub mod Tests
pub mod Recent
use mi_ster_groovy_relay.Prelude.{
  ℕ, ◌+◌, Bool, true, false, not, List, [], ◌∷◌, ◌++◌, ◌==◌, if◌then◌else◌, length, set, take, drop,
  replicate,
}

pub record Log (A : Type 0) : Type 0 where
  pub buf : List A
  pub next : ℕ
  pub full : Bool

module _ {A : Type 0} where
  -- `New`, for a positive capacity; `zero` is the zero Entry.
  unfoldable pub new : A → ℕ → Log A
  new blank capacity = record { buf = replicate capacity blank; next = 0; full = false }

  unfoldable pub append : Log A → A → Log A
  append l e =
      let buf = set l.buf l.next e in
      if l.next + 1 == length buf
      then record { buf = buf; next = 0; full = true }
      else record l { buf = buf; next = l.next + 1 }

  unfoldable pub snapshot : Log A → List A
  snapshot l = if not l.full then take l.next l.buf else drop l.next l.buf ++ take l.next l.buf

  unfoldable pub append_all : Log A → List A → Log A
  unfolding append
  append_all l [] = l
  append_all l (e ∷ es) = append_all (append l e) es
