-- ===== src/Base/Action.antt =====
-- Stateful code that may throw: a function from a state to a result and the state reached. What was
-- written before a throw stays written, as in the source.

-- The exceptions that the program meets: ArgumentOutOfRangeException, NullReferenceException,
-- SocketException, ObjectDisposedException, ThreadStateException and XmlException.
pub data Fault : Type 0 where
  index_out_of_range null_reference socket_error object_disposed thread_state xml_error : Fault

pub data Result {ℓ} (A : Type ℓ) : Type ℓ where
  ok : A → Result A
  fault : Fault → Result A

abbrev pub Action : Type 0 → Type 0 → Type 0
Action S A = S → Result A × S

module _ {S A : Type 0} where
  abbrev pub pure : A → Action S A
  pure a s = (ok a, s)

  abbrev pub throw : Fault → Action S A
  throw e s = (fault e, s)

  abbrev pub gets : (S → A) → Action S A
  gets f s = (ok (f s), s)

  -- A total method: it returns a value and the new state.
  abbrev pub call : (S → A × S) → Action S A
  call f s = let (a, s') = f s in (ok a, s')

abbrev pub modify : {S : Type 0} → (S → S) → Action S (Unit {0})
modify f s = (ok tt, f s)

-- What follows a step runs on its value, and not at all after a throw.
abbrev pub resume : {S A B : Type 0} → (A → Action S B) → Result A × S → Result B × S
resume f (ok a, s) = f a s
resume f (fault e, s) = (fault e, s)

infixl 5 ◌>>=◌ ◌>>◌
abbrev pub ◌>>=◌ : {S A B : Type 0} → Action S A → (A → Action S B) → Action S B
◌>>=◌ m f s = resume f (m s)

abbrev pub ◌>>◌ : {S A B : Type 0} → Action S A → Action S B → Action S B
m >> k = m >>= λ _. k

-- `try { m } catch(e : SocketException) { h }`
abbrev pub handle_socket : {S A : Type 0} → Action S A → Result A × S → Result A × S
handle_socket h (fault socket_error, s) = h s
handle_socket h r = r

abbrev pub catch_socket : {S A : Type 0} → Action S A → Action S A → Action S A
catch_socket m h s = handle_socket h (m s)
