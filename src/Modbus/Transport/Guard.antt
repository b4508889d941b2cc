-- ===== src/Modbus/Transport/Guard.antt =====
-- The guard of one request: a budget of one send, and only for the approved bytes.
use jinko_exporter.Prelude.{ℕ, ◌≡◌, refl, ◌∙◌, ◌⊎◌, inl, true, Option, List, [], ◌∷◌, ◌++◌, arith}
use jinko_exporter.Modbus.Transport.{
  SessionError, Conn, WriteGuard, new_guard, bytes_equal, guarded_write,
}

pub bytes_equal_refl : (xs : List ℕ) → bytes_equal xs xs ≡ true
unfolding bytes_equal
bytes_equal_refl [] = refl
bytes_equal_refl (x ∷ xs) = ground (arith, bytes_equal_refl xs)

pub bytes_equal→eq : (xs ys : List ℕ) → bytes_equal xs ys ≡ true → xs ≡ ys
unfolding bytes_equal
bytes_equal→eq [] [] h = refl
bytes_equal→eq [] (y ∷ ys) h = absurd (cc)
bytes_equal→eq (x ∷ xs) [] h = absurd (cc)
bytes_equal→eq (x ∷ xs) (y ∷ ys) h = ground (arith, bytes_equal→eq xs ys)

-- A write attempt: its bytes and what the network would return.
pub record Attempt : Type 0 where
  pub bytes : List ℕ
  pub written : ℕ
  pub write_error : Option SessionError

-- Any attempts, one after another, through one guard.
unfoldable pub write_all : WriteGuard → Conn → List Attempt → Conn
write_all g c [] = c
write_all g c (a ∷ rest) =
    let w = guarded_write g c a.bytes a.written a.write_error in write_all w.guard w.conn rest

spent_step :
    (g : WriteGuard) (c : Conn) (a : Attempt)
    → g.spent ≡ true
    → let w = guarded_write g c a.bytes a.written a.write_error in
      (w.conn ≡ c) × (w.guard.spent ≡ true)
unfolding guarded_write
spent_step g c a h = ground arith

fresh_step :
    (expected : List ℕ) (c : Conn) (a : Attempt)
    → let w = guarded_write (new_guard expected) c a.bytes a.written a.write_error in
      (w.guard.spent ≡ true) × ((w.conn.sent ≡ c.sent) ⊎ (w.conn.sent ≡ c.sent ++ expected ∷ []))
unfolding guarded_write
fresh_step expected c a = ground (arith, bytes_equal→eq a.bytes expected)

spent_writes_nothing :
    (g : WriteGuard) (c : Conn) (attempts : List Attempt)
    → g.spent ≡ true
    → write_all g c attempts ≡ c
unfolding write_all
spent_writes_nothing g c [] h = refl
spent_writes_nothing g c (a ∷ rest) h =
    let w = guarded_write g c a.bytes a.written a.write_error in
    let (same, still) = spent_step g c a h in spent_writes_nothing w.guard w.conn rest still ∙ same

-- Whatever is attempted through a fresh guard, in whatever number, the network is handed either
-- nothing or the approved request, once.
pub guard_sends_once :
    (expected : List ℕ) (c : Conn) (attempts : List Attempt)
    → ((write_all (new_guard expected) c attempts).sent ≡ c.sent)
      ⊎ ((write_all (new_guard expected) c attempts).sent ≡ c.sent ++ expected ∷ [])
unfolding write_all
guard_sends_once expected c [] = inl refl
guard_sends_once expected c (a ∷ rest) =
    let w = guarded_write (new_guard expected) c a.bytes a.written a.write_error in
    let (spent, once) = fresh_step expected c a in
    rw (spent_writes_nothing w.guard w.conn rest spent) once
