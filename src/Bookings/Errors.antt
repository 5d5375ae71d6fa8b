-- ===== src/Bookings/Errors.antt =====
-- The exceptions that the services of bookings and ingestion raise. Every service runs in a
-- transaction, so an error leaves the database as it was.
use ticketmirror.Base.{String}

pub data ServiceError : Type 0 where
  -- MultipleObjectsReturned, of `update_or_create`
  multiple_objects : ServiceError
  -- IntegrityError: the unique constraint on provider and reference
  integrity_error : ServiceError
  -- CapacityExceededError, with its message
  capacity_exceeded : String → ServiceError
  -- DoesNotExist, of `get`
  does_not_exist : ServiceError
