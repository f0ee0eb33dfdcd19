-- ===== src/Examples.antt =====
-- Runs of the model at concrete inputs.
mod Image
mod Files
mod Parts
mod Readers
mod Blobs
mod Cells
mod Guids
mod Widths
mod Cases
mod Args
mod Kinds
mod Limits
mod Trees
mod Namespaces
mod Choices
mod Imports
mod Objects
mod Requirements
mod Stages
mod Strings
