-- ===== src/Od.antt =====
-- pkg/od: the object dictionary. `Od.Errors` has the error codes, `Od.Stream` the default reader
-- and writer of streamer.go, `Od.Entry` the variables, entries and typed access of variable.go,
-- variable_list.go, entry.go and NewStreamer, `Od.Lookup` the dictionary of od.go, `Od.Encoding`
-- the encodings of variable.go.
pub mod Errors
pub mod Stream
pub mod Entry
pub mod Lookup
pub mod Encoding
