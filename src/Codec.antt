-- ===== src/Codec.antt =====
-- The binary format of codec.go and block.go.
pub mod Reader
pub mod Writer
pub mod Varint
pub mod Block
pub mod Segment
pub mod Shrink
pub mod Columns
pub mod Buckets
pub mod SketchBlock
pub mod Segments
pub mod Series
pub mod Scan
pub mod Bodies
pub mod Writes
pub mod Rows
pub mod BucketRows
pub mod RoundTrip
pub mod Local
pub mod Extend
pub mod Shape
