-- ===== src/Routes/Reply.antt =====
-- What a route answers: a status with the text of its `error` field, or a status with a body.
use streamgive_backend.Prelude.{ℕ, String}

pub data Reply (A : Type 0) : Type 0 where
  refused : (status : ℕ) (problem : String) → Reply A
  replied : (status : ℕ) (body : A) → Reply A
