-- ===== src/Html.antt =====
-- Parts of src/html: tags, local names and their hashes, namespaces and text types.
pub mod Tag
pub mod LocalName
pub mod TextType
