-- ===== src/Io/ErrorKinds.antt =====
-- embassy/src/io/error.rs: the error kinds, and their conversions from and to those of std.
use embassy.Base.{◌≡◌, arith}

pub data Error : Type 0 where
  not_found permission_denied connection_refused connection_reset connection_aborted : Error
  not_connected addr_in_use addr_not_available broken_pipe already_exists would_block : Error
  invalid_input invalid_data timed_out write_zero interrupted unexpected_eof truncated other : Error

-- The kinds of `std::io::ErrorKind` that the conversions name; `unlisted` is any other.
pub data ErrorKind : Type 0 where
  not_found permission_denied connection_refused connection_reset connection_aborted : ErrorKind
  not_connected addr_in_use addr_not_available broken_pipe already_exists would_block : ErrorKind
  invalid_input invalid_data timed_out write_zero interrupted unexpected_eof other : ErrorKind
  unlisted : ErrorKind

pub from_std : ErrorKind → Error
from_std ErrorKind.not_found = Error.not_found
from_std ErrorKind.permission_denied = Error.permission_denied
from_std ErrorKind.connection_refused = Error.connection_refused
from_std ErrorKind.connection_reset = Error.connection_reset
from_std ErrorKind.connection_aborted = Error.connection_aborted
from_std ErrorKind.not_connected = Error.not_connected
from_std ErrorKind.addr_in_use = Error.addr_in_use
from_std ErrorKind.addr_not_available = Error.addr_not_available
from_std ErrorKind.broken_pipe = Error.broken_pipe
from_std ErrorKind.already_exists = Error.already_exists
from_std ErrorKind.would_block = Error.would_block
from_std ErrorKind.invalid_input = Error.invalid_input
from_std ErrorKind.invalid_data = Error.invalid_data
from_std ErrorKind.timed_out = Error.timed_out
from_std ErrorKind.write_zero = Error.write_zero
from_std ErrorKind.interrupted = Error.interrupted
from_std ErrorKind.unexpected_eof = Error.unexpected_eof
from_std _ = Error.other

pub to_std : Error → ErrorKind
to_std Error.not_found = ErrorKind.not_found
to_std Error.permission_denied = ErrorKind.permission_denied
to_std Error.connection_refused = ErrorKind.connection_refused
to_std Error.connection_reset = ErrorKind.connection_reset
to_std Error.connection_aborted = ErrorKind.connection_aborted
to_std Error.not_connected = ErrorKind.not_connected
to_std Error.addr_in_use = ErrorKind.addr_in_use
to_std Error.addr_not_available = ErrorKind.addr_not_available
to_std Error.broken_pipe = ErrorKind.broken_pipe
to_std Error.already_exists = ErrorKind.already_exists
to_std Error.would_block = ErrorKind.would_block
to_std Error.invalid_input = ErrorKind.invalid_input
to_std Error.invalid_data = ErrorKind.invalid_data
to_std Error.timed_out = ErrorKind.timed_out
to_std Error.write_zero = ErrorKind.write_zero
to_std Error.interrupted = ErrorKind.interrupted
to_std Error.unexpected_eof = ErrorKind.unexpected_eof
to_std Error.truncated = ErrorKind.other
to_std Error.other = ErrorKind.other

-- An error but `Truncated` comes back from its conversion to std and back; that one comes back as
-- `Other`.
from_std-to_std :
    (e : Error) → from_std (to_std e) ≡ elim e [ Error.truncated ↦ Error.other | kept ↦ kept ]
unfolding from_std to_std
from_std-to_std e = ground arith
