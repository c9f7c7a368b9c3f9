-- ===== src/Host.antt =====
-- What the program calls when it starts, and does not implement: yaml-cpp, the files, the clock,
-- the console, and the pool of threads over `boost::asio::io_context`.
use nipovpn.Base.{ℕ, ◌≡◌, Bool, List, Bytes}

infix 10 ◌>>=◌
infix 10 ◌>>◌
-- A call that gives a value, or throws a `std::exception` with the text of its `what()`.
pub data Yields (A : Type 0) : Type 0 where
  value : A → Yields A
  raised : Bytes → Yields A

abbrev pub ◌>>=◌ : {A B : Type 0} → Yields A → (A → Yields B) → Yields B
value a >>= f = f a
raised what >>= f = raised what

abbrev pub ◌>>◌ : {A B : Type 0} → Yields A → Yields B → Yields B
value a >> r = r
raised what >> r = raised what

pub value_inj : {A : Type 0} {a b : A} → value a ≡ value b → a ≡ b
value_inj e = cc

pub record Host : Type 1 where
  pub World : Type 0
  -- A parsed file, and one of its entries, which may be undefined.
  pub Node : Type 0
  pub Entry : Type 0
  -- `std::ifstream::good` behind its constructor, and `YAML::LoadFile`.
  pub readable : Bytes → World → Bool × World
  pub load_file : Bytes → World → Yields Node × World
  -- `node[block][key]`, which throws where `node` or the block is a scalar, and the `as<T>()` of
  -- an entry, which throws where the entry has no value of the type.
  pub at : Node → Bytes → Bytes → Yields Entry
  pub as_string : Entry → Yields Bytes
  pub as_strings : Entry → Yields (List Bytes)
  pub as_unsigned : Entry → Yields ℕ
  pub as_short : Entry → Yields ℕ
  pub as_bool : Entry → Yields Bool
  -- A `std::ofstream` in append mode: whether it opens, and what is written to it.
  pub open_append : Bytes → World → Bool × World
  pub append : Bytes → Bytes → World → World
  -- `std::put_time` of the local time.
  pub timestamp : World → Bytes × World
  pub cout : Bytes → World → World
  pub cerr : Bytes → World → World
  -- The construction of the acceptor on an address and a port, and the start of the first accept.
  pub listen : Bytes → ℕ → World → Yields Unit × World
  -- The threads of the pool, from the start of the first to the end of the last.
  pub run_threads : ℕ → World → World

-- `as<T>(fallback)`.
abbrev pub or_default : {A : Type 0} → A → Yields A → A
or_default d (value a) = a
or_default d (raised what) = d
