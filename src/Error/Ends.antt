-- ===== src/Error/Ends.antt =====
-- How a fallible call ends: with an error of one kind or a value of another.
use rust_streamer_pgdb.Error.{Error, Result, ok, err, ◌>>=◌, internal}
use rust_streamer_pgdb.Prelude.{refl, ◌≡◌}

abbrev pub Ends : {V : Type 0} → (Error → Type 0) → (V → Type 0) → Result V → Type 0
Ends E Q (err e) = E e
Ends E Q (ok v) = Q v

pub Ends-bind :
    {V W : Type 0} (E : Error → Type 0) (P : V → Type 0) (Q : W → Type 0) (m : Result V)
    (f : V → Result W)
    → Ends E P m
    → ((v : V) → P v → Ends E Q (f v))
    → Ends E Q (m >>= f)
Ends-bind E P Q (err e) f h k = h
Ends-bind E P Q (ok v) f h k = k v h

pub Ends-map :
    {V : Type 0} (E : Error → Type 0) (P Q : V → Type 0) (m : Result V)
    → Ends E P m
    → ((v : V) → P v → Q v)
    → Ends E Q m
Ends-map E P Q (err e) h k = h
Ends-map E P Q (ok v) h k = k v h

-- An error that is not a defect of the program itself.
abbrev pub IsExternal : Error → Type 0
IsExternal (internal detail) = ⊥
IsExternal _ = Unit

abbrev pub Anything : {V : Type 0} → V → Type 0
Anything v = Unit

-- Nothing is said of an error or of a value.
pub Ends-any : {V : Type 0} (m : Result V) → Ends Anything Anything m
Ends-any (err e) = tt
Ends-any (ok v) = tt

pub Ends-pure :
    {V W : Type 0} (Q : W → Type 0) (m : Result V) (f : V → Result W)
    → ((v : V) → Ends Anything Q (f v))
    → Ends Anything Q (m >>= f)
Ends-pure Q (err e) f k = tt
Ends-pure Q (ok v) f k = k v

-- What holds of the errors by one reason, and of the values by another.
pub Ends-both :
    {V : Type 0} (E : Error → Type 0) (P : V → Type 0) (m : Result V)
    → Ends E Anything m
    → Ends Anything P m
    → Ends E P m
Ends-both E P (err e) h k = h
Ends-both E P (ok v) h k = k

-- What holds of the value, if there is one.
pub Ends-ok :
    {V : Type 0} (P : V → Type 0) (m : Result V) → ((v : V) → m ≡ ok v → P v) → Ends Anything P m
Ends-ok P (err e) h = tt
Ends-ok P (ok v) h = h v refl
