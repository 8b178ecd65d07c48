-- ===== src/Exceptions.antt =====
-- The exceptions of the relay code and of the calendar, and what a function that may throw leaves behind.
pub data Exception : Type 0 where
  -- RelayStateError, MissingDataException, RecoverHashesFailedException
  relay_state_error missing_data recover_hashes_failed : Exception
  -- WrongBatchException, CalendarException
  wrong_batch calendar_error : Exception
  -- no exception of the code: a loop of the model met the end of its fuel
  out_of_fuel : Exception

-- An exception leaves the state behind as it was at the throw.
pub data Result (S : Type 0) : Type 0 where
  ok : S → Result S
  throw : Exception → S → Result S

infixl 5 ◌>>=◌
abbrev pub ◌>>=◌ : {S : Type 0} → Result S → (S → Result S) → Result S
ok s >>= f = f s
throw e s >>= f = throw e s
